-- ===== src/Plugins/Requests/Steps.antt =====
-- The effect of the cases on storage, events and notices, and of the whole of
-- `processBridgeRequest`.
use y5fgb.Plugins.Requests.Effect.{Effect, IsValidInstance}
use y5fgb.Plugins.Requests.{
  get_visible_messages_sanitized, get_active_conversation_summary, storage_list, perform,
  events_subscribe, events_unsubscribe, show_local, add_text, process_bridge_request,
}
use y5fgb.Plugins.Bridge.{
  value_param, storage_get, storage_set, storage_delete, Platform, is_bad_key, param,
  plugin_storage_key, BridgeRequest,
}
use y5fgb.Common.{
  Text, ◌&&◌, All-append, Json, has_text, length-take-le, arith, All, ◌≡◌, take, true, inr, trim,
  eq_text, inl, is_empty, refl, if_cases, not, All-filter, sym, subst, ◌⊎◌,
}
use y5fgb.Plugins.Host.{Instance, Host, BridgeResult, success, allowed_event_types}
use y5fgb.Plugins.Requests.Handled.{
  IsHandled, with_subscriptions, register_command-IsHandled, register_panel-IsHandled,
  set_panel_content-IsHandled,
}
use y5fgb.Plugins.Capability.{Method}
use y5fgb.Plugins.Requests.Guard.{IsRefused, Authorized, process_bridge_request_cases}

module _ (platform : Platform) (fresh now : Text) (instance : Instance)
    (valid : IsValidInstance instance) (params : Json) (host : Host) where
  storage_get-IsHandled : IsHandled instance host (storage_get instance params host)
  unfolding storage_get
  storage_get-IsHandled =
      if_cases (IsHandled instance host) (is_bad_key (trim (param "key" params)))
        (λ _. inl (_, _, refl)) (λ _. inr (_, refl, Effect.unchanged))

  storage_set-IsHandled : IsHandled instance host (storage_set platform instance params host)
  unfolding storage_set
  storage_set-IsHandled =
      let key = trim (param "key" params) in
      let full_key = plugin_storage_key instance.manifest.id key in
      let value = take 20000 (value_param platform params) in
      if_cases (IsHandled instance host) (is_bad_key key) (λ _. inl (_, _, refl))
        (λ _.
          if_cases (IsHandled instance host) (platform.accepts host.storage full_key value)
            (λ _. inr (
              _,
              refl,
              Effect.stored key value (length-take-le 20000 (value_param platform params)),
            ))
            (λ _. inl (_, _, refl)))

  storage_delete-IsHandled : IsHandled instance host (storage_delete instance params host)
  unfolding storage_delete
  storage_delete-IsHandled =
      let key = trim (param "key" params) in
      if_cases (IsHandled instance host) (is_bad_key key) (λ _. inl (_, _, refl))
        (λ _. inr (_, refl, Effect.deleted key))

  events_subscribe-IsHandled : IsHandled instance host (events_subscribe instance params host)
  unfolding events_subscribe add_text
  events_subscribe-IsHandled =
      let t = param "eventType" params in
      let Q = IsHandled instance host in
      let allowed : Text → Type 0 = λ t.
        (has_text t allowed_event_types && has_text t instance.manifest.declared_hooks) ≡ true in
      if_cases Q (not (has_text t allowed_event_types)) (λ _. inl (_, _, refl))
        (λ known.
          if_cases Q (not (has_text t instance.manifest.declared_hooks)) (λ _. inl (_, _, refl))
            (λ declared. inr (
              _,
              refl,
              Effect.followed _ (
                  with_subscriptions instance valid _ (
                    if_cases (All allowed) (has_text t instance.subscriptions)
                      (λ _. valid.subscriptions)
                      (λ _. All-append allowed _ _ valid.subscriptions (ground arith, tt)))),
            )))

  events_unsubscribe-IsHandled : IsHandled instance host (events_unsubscribe instance params host)
  unfolding events_unsubscribe
  events_unsubscribe-IsHandled =
      let t = param "eventType" params in
      if_cases (IsHandled instance host) (not (has_text t allowed_event_types))
        (λ _. inl (_, _, refl))
        (λ _. inr (
          _,
          refl,
          Effect.followed _ (
              with_subscriptions instance valid _
                (All-filter _ (λ x. not (eq_text x t)) _ valid.subscriptions)),
        ))

  show_local-IsHandled : IsHandled instance host (show_local fresh now instance params host)
  unfolding show_local
  show_local-IsHandled =
      let message = trim (param "message" params) in
      if_cases (IsHandled instance host) (is_empty message) (λ _. inl (_, _, refl))
        (λ _. inr (_, refl, Effect.noticed fresh now _ (length-take-le 280 message)))

  perform-IsHandled :
      (m : Method) → IsHandled instance host (perform platform fresh now instance m params host)
  unfolding perform storage_list get_active_conversation_summary get_visible_messages_sanitized
  perform-IsHandled Method.register_command =
      register_command-IsHandled instance valid now params host
  perform-IsHandled Method.register_panel = register_panel-IsHandled instance valid now params host
  perform-IsHandled Method.set_panel_content =
      set_panel_content-IsHandled instance valid now params host
  perform-IsHandled Method.storage_get = storage_get-IsHandled
  perform-IsHandled Method.storage_set = storage_set-IsHandled
  perform-IsHandled Method.storage_delete = storage_delete-IsHandled
  perform-IsHandled Method.storage_list = inr (_, refl, Effect.unchanged)
  perform-IsHandled Method.get_active_conversation_summary = inr (_, refl, Effect.unchanged)
  perform-IsHandled Method.get_visible_messages_sanitized = inr (_, refl, Effect.unchanged)
  perform-IsHandled Method.events_subscribe = events_subscribe-IsHandled
  perform-IsHandled Method.events_unsubscribe = events_unsubscribe-IsHandled
  perform-IsHandled Method.show_local = show_local-IsHandled
  perform-IsHandled (Method.unknown name) = inl (_, _, refl)

module _ (platform : Platform) (fresh now : Text) (instance : Instance) (request : BridgeRequest)
    (host : Host) where
  -- A bridge request of a valid instance gets an error and changes nothing, or it was authorised, it
  -- succeeds, and the host changes by one effect of that plugin.
  pub process_bridge_request-Effect :
      IsValidInstance instance
      → let a = process_bridge_request platform fresh now instance request host in
        IsRefused host a
        ⊎ (Authorized instance request
            × (r : BridgeResult) × (a.1 ≡ success r)
            × Effect instance host a.0)
  process_bridge_request-Effect valid =
      elim (process_bridge_request_cases platform fresh now instance request host) [
        | inl refused ↦ inl refused
        | inr (ok, e) ↦
            let performed =
              perform-IsHandled platform fresh now instance valid request.params host
                request.method in
            subst
              (λ a.
                IsRefused host a
                ⊎ (Authorized instance request
                    × (r : BridgeResult) × (a.1 ≡ success r)
                    × Effect instance host a.0))
              (sym e)
              (elim performed [
                | inl refused ↦ inl refused
                | inr (r, is_ok, effect) ↦ inr (ok, r, is_ok, effect)
              ])
      ]
