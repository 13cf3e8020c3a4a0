-- ===== src/Plugins/Window/Tokens.antt =====
-- What a window message can do without the runtime token.
use y5fgb.Common.{
  arith, not, eq_text, ◌≡◌, false, codes, ◌&&◌, some, option_cases, if_cases, lookup, Text, refl,
}
use y5fgb.Plugins.Bridge.{Platform}
use y5fgb.Plugins.Host.{Host, teardown_plugin, fail_plugin, put_instance, Instance}
use y5fgb.Plugins.Window.{
  WindowEvent, handle_kind, handle_window_message, find_instance_for_message, is_token,
  is_other_token, MessageKind,
}

-- The storage, the messages and what was posted are as they were.
abbrev pub IsQuiet : Host → Host → Type 0
IsQuiet host host' =
    (host'.storage ≡ host.storage)
    × (host'.messaging ≡ host.messaging)
    × (host'.posted ≡ host.posted)

teardown_plugin-IsQuiet :
    (plugin_id : Text) (host : Host) → IsQuiet host (teardown_plugin plugin_id host)
unfolding teardown_plugin
teardown_plugin-IsQuiet plugin_id host =
    option_cases (IsQuiet host) (lookup plugin_id host.instances) (λ _. (refl, refl, refl))
      (λ _ _. (refl, refl, refl))

fail_plugin-IsQuiet :
    (fresh now plugin_id message : Text) (host : Host)
    → IsQuiet host (fail_plugin fresh now plugin_id message host)
unfolding fail_plugin
fail_plugin-IsQuiet fresh now plugin_id message host = teardown_plugin-IsQuiet plugin_id host

module _ (platform : Platform) (fresh now : Text) (event : WindowEvent) (host : Host) where
  handle_kind-IsQuiet :
      (instance : Instance)
      → is_token event.payload.runtime_token instance.runtime_token ≡ false
      → IsQuiet host (handle_kind platform fresh now event.payload.kind event.payload instance host)
  unfolding handle_kind put_instance
  handle_kind-IsQuiet instance foreign =
      let fails : (message : Text)
          → IsQuiet host (fail_plugin fresh now instance.manifest.id message host) =
        λ message. fail_plugin-IsQuiet fresh now instance.manifest.id message host in
      let Q = IsQuiet host in
      let wrong_bootstrap = not (is_token event.payload.bootstrap_token instance.bootstrap_token) in
      elim event.payload.kind
        as (λ k. Q (handle_kind platform fresh now k event.payload instance host)) [
          | MessageKind.ready ↦ if_cases Q wrong_bootstrap (λ _. fails _) (λ _. (refl, refl, refl))
          | MessageKind.initialized ↦
              if_cases Q wrong_bootstrap (λ _. fails _)
                (λ _.
                  if_cases Q (not (is_token event.payload.runtime_token instance.runtime_token))
                    (λ _. fails _) (λ _. (refl, refl, refl)))
          | MessageKind.error ↦
              if_cases Q wrong_bootstrap (λ _. fails _)
                (λ _.
                  if_cases Q (is_other_token event.payload.runtime_token instance.runtime_token)
                    (λ _. fails _) (λ _. fails _))
          | MessageKind.bridge_request ↦
              if_cases Q (not (is_token event.payload.runtime_token instance.runtime_token))
                (λ _. fails _) (λ same. absurd (ground arith))
          | MessageKind.unknown_kind ↦ (refl, refl, refl)
        ]

  -- A window message that does not carry the runtime token of the instance it belongs to changes
  -- neither the storage nor the messages, and gets no answer.
  pub handle_window_message-IsQuiet :
      (own_origin : Text)
      → ((instance : Instance)
          → find_instance_for_message event host ≡ some instance
          → is_token event.payload.runtime_token instance.runtime_token ≡ false)
      → IsQuiet host (handle_window_message platform fresh now own_origin event host)
  unfolding handle_window_message
  handle_window_message-IsQuiet own_origin foreign =
      let Q = IsQuiet host in
      option_cases Q (find_instance_for_message event host) (λ _. (refl, refl, refl))
        (λ instance found.
          let fails : (message : Text)
              → IsQuiet host (fail_plugin fresh now instance.manifest.id message host) =
            λ message. fail_plugin-IsQuiet fresh now instance.manifest.id message host in
          if_cases Q
            (not (eq_text event.origin (codes "null")) && not (eq_text event.origin own_origin))
            (λ _. fails _)
            (λ _.
              if_cases Q (is_other_token event.payload.plugin_id instance.manifest.id)
                (λ _. fails _) (λ _. handle_kind-IsQuiet instance (foreign instance found))))
