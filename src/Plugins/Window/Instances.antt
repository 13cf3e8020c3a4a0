-- ===== src/Plugins/Window/Instances.antt =====
-- The active instances over the window messages.
use y5fgb.Common.{
  some, ◌≡◌, All-weaken, subst, lookup, All-map, Option, is_empty, if_cases, ◌∙◌, or_default, arith,
  [], All-find, All-lookup, option_cases, ◌==◌, some-injective, ℕ, Text, not, Bool, codes, eq_text,
  none, All-remove, ◌&&◌, true,
}
use y5fgb.Plugins.Window.{
  find_instance_for_message, find_by_plugin_id, WindowEvent, is_other_token, MessageKind,
  find_by_window, handle_window_message, handle_bridge_request, handle_kind, is_token,
}
use y5fgb.Plugins.Host.{Host, Instance, teardown_plugin, fail_plugin, post_to_plugin}
use y5fgb.Plugins.Requests.Instances.{
  IsValidHost, process_bridge_request-IsValidHost, put_instance-IsValidHost,
}
use y5fgb.Plugins.Requests.Effect.{IsValidInstance}
use y5fgb.Plugins.Bridge.{Platform}

-- What a lookup finds, if anything, is valid.
IsValidFound : Option Instance → Type 0
IsValidFound o = (instance : Instance) → o ≡ some instance → IsValidInstance instance

module _ (event : WindowEvent) (host : Host) (h : IsValidHost host) where
  find_by_plugin_id-IsValidFound : IsValidFound (find_by_plugin_id event.payload host)
  unfolding find_by_plugin_id IsValidFound
  find_by_plugin_id-IsValidFound =
      let id = or_default event.payload.plugin_id [] in
      if_cases IsValidFound (is_empty id) (λ _ i e. absurd (ground arith))
        (λ _.
          option_cases IsValidFound (lookup id host.instances) (λ _ i e. absurd (ground arith))
            (λ candidate found.
              if_cases IsValidFound
                (is_other_token event.payload.bootstrap_token candidate.bootstrap_token)
                (λ _ i e. absurd (ground arith))
                (λ _ i e.
                  let valid =
                    All-lookup (λ e. (e.1.manifest.id ≡ e.0) × IsValidInstance e.1) id
                      host.instances candidate h found in
                  subst IsValidInstance (some-injective candidate i e) valid.1)))

  find_by_window-IsValidFound : (source : Option ℕ) → IsValidFound (find_by_window source host)
  unfolding IsValidFound find_by_window
  find_by_window-IsValidFound none i e = absurd (ground arith)
  find_by_window-IsValidFound (some source) i e =
      let valid =
        All-map IsValidInstance (λ (e : Text × Instance). e.1) host.instances
          (All-weaken _ _ (λ e v. v.1) host.instances h) in
      (All-find IsValidInstance (λ i. i.window == source) _ valid i e).0

  find_instance_for_message-IsValidFound : IsValidFound (find_instance_for_message event host)
  unfolding find_instance_for_message IsValidFound
  find_instance_for_message-IsValidFound =
      option_cases IsValidFound (find_by_window event.source host)
        (λ _. find_by_plugin_id-IsValidFound)
        (λ i found j e. find_by_window-IsValidFound event.source j (found ∙ e))

teardown_plugin-IsValidHost :
    (p : Text) (host : Host) → IsValidHost host → IsValidHost (teardown_plugin p host)
unfolding teardown_plugin
teardown_plugin-IsValidHost p host h =
    option_cases IsValidHost (lookup p host.instances) (λ _. h)
      (λ _ _. All-remove (λ e. (e.1.manifest.id ≡ e.0) × IsValidInstance e.1) p host.instances h)

fail_plugin-IsValidHost :
    (fresh now p message : Text) (host : Host)
    → IsValidHost host
    → IsValidHost (fail_plugin fresh now p message host)
unfolding fail_plugin
fail_plugin-IsValidHost fresh now p message host h = teardown_plugin-IsValidHost p host h

-- The flags of the handshake do not matter for validity.
with_flags :
    (instance : Instance) (is_ready is_initialized : Bool)
    → IsValidInstance instance
    → IsValidInstance (record instance { is_ready = is_ready; is_initialized = is_initialized })
with_flags instance is_ready is_initialized v = record {
  commands = v.commands;
  commands_distinct = v.commands_distinct;
  panels = v.panels;
  panels_distinct = v.panels_distinct;
  subscriptions = v.subscriptions;
}

module _ (platform : Platform) (fresh now : Text) (event : WindowEvent) (host : Host)
    (h : IsValidHost host) (instance : Instance) (valid : IsValidInstance instance) where
  handle_bridge_request-IsValidHost :
      IsValidHost (handle_bridge_request platform fresh now event.payload instance host)
  unfolding handle_bridge_request post_to_plugin
  handle_bridge_request-IsValidHost =
      process_bridge_request-IsValidHost platform fresh now instance event.payload.request host
        valid h

  handle_kind-IsValidHost :
      IsValidHost (handle_kind platform fresh now event.payload.kind event.payload instance host)
  unfolding handle_kind
  handle_kind-IsValidHost =
      let fails : (message : Text)
          → IsValidHost (fail_plugin fresh now instance.manifest.id message host) =
        λ message. fail_plugin-IsValidHost fresh now instance.manifest.id message host h in
      let wrong_bootstrap = not (is_token event.payload.bootstrap_token instance.bootstrap_token) in
      let wrong_token = not (is_token event.payload.runtime_token instance.runtime_token) in
      elim event.payload.kind
        as (λ k. IsValidHost (handle_kind platform fresh now k event.payload instance host)) [
          | MessageKind.ready ↦
              if_cases IsValidHost wrong_bootstrap (λ _. fails _)
                (λ _.
                  put_instance-IsValidHost _ host
                    (with_flags instance true instance.is_initialized valid) h)
          | MessageKind.initialized ↦
              if_cases IsValidHost wrong_bootstrap (λ _. fails _)
                (λ _.
                  if_cases IsValidHost wrong_token (λ _. fails _)
                    (λ _.
                      put_instance-IsValidHost _ host
                        (with_flags instance instance.is_ready true valid) h))
          | MessageKind.error ↦
              if_cases IsValidHost wrong_bootstrap (λ _. fails _)
                (λ _.
                  if_cases IsValidHost
                    (is_other_token event.payload.runtime_token instance.runtime_token)
                    (λ _. fails _) (λ _. fails _))
          | MessageKind.bridge_request ↦
              if_cases IsValidHost wrong_token (λ _. fails _)
                (λ _. handle_bridge_request-IsValidHost)
          | MessageKind.unknown_kind ↦ h
        ]

-- Every window message keeps every active instance valid, and under the id of its manifest.
pub handle_window_message-IsValidHost :
    (platform : Platform) (fresh now own_origin : Text) (event : WindowEvent) (host : Host)
    → IsValidHost host
    → IsValidHost (handle_window_message platform fresh now own_origin event host)
unfolding handle_window_message IsValidFound
handle_window_message-IsValidHost platform fresh now own_origin event host h =
    option_cases IsValidHost (find_instance_for_message event host) (λ _. h)
      (λ instance found.
        let fails : (message : Text)
            → IsValidHost (fail_plugin fresh now instance.manifest.id message host) =
          λ message. fail_plugin-IsValidHost fresh now instance.manifest.id message host h in
        if_cases IsValidHost
          (not (eq_text event.origin (codes "null")) && not (eq_text event.origin own_origin))
          (λ _. fails _)
          (λ _.
            if_cases IsValidHost (is_other_token event.payload.plugin_id instance.manifest.id)
              (λ _. fails _)
              (λ _.
                handle_kind-IsValidHost platform fresh now event host h instance
                  (find_instance_for_message-IsValidFound event host h instance found))))
