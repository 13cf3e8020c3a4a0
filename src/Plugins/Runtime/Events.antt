-- ===== src/Plugins/Runtime/Events.antt =====
-- Who receives an event.
use y5fgb.Common.{
  ℕ, ◌≡◌, sym, List, append-nil, [], has_text, ◌++◌, filter, ◌∷◌, map, Text, ◌∙◌, append_assoc,
  if◌then◌else◌, false, true,
}
use y5fgb.Plugins.Host.{Instance, HostMessage, post_to_plugin, Host}
use y5fgb.Plugins.Runtime.{emit_to, emit_event}

abbrev pub event_for : Text → Instance → ℕ × HostMessage
event_for event_type i = (i.window, HostMessage.event i.runtime_token event_type)

emit_to-posted :
    (event_type : Text) (is : List Instance) (host : Host)
    → (emit_to event_type is host).posted
      ≡ host.posted
        ++ map (event_for event_type) (filter (λ i. has_text event_type i.subscriptions) is)
unfolding emit_to filter post_to_plugin
emit_to-posted event_type [] host = sym (append-nil host.posted)
emit_to-posted event_type (i ∷ is) host =
    let followers = filter (λ i. has_text event_type i.subscriptions) is in
    let posted = post_to_plugin i (HostMessage.event i.runtime_token event_type) host in
    elim (has_text event_type i.subscriptions)
      as (λ b.
        (emit_to event_type is (if b then posted else host)).posted
        ≡ host.posted ++ map (event_for event_type) (if b then i ∷ followers else followers)) [
          | true ↦
              emit_to-posted event_type is posted
              ∙ append_assoc host.posted (event_for event_type i ∷ [])
                  (map (event_for event_type) followers)
          | false ↦ emit_to-posted event_type is host
        ]

-- `emitEvent` posts the event, with the instance's own runtime token, to the window of every active
-- instance that follows it, once and in order, and to no other.
pub emit_event-posted :
    (event_type : Text) (host : Host)
    → (emit_event event_type host).posted
      ≡ host.posted
        ++ map
            (event_for event_type)
            (filter (λ i. has_text event_type i.subscriptions) (map (λ e. e.1) host.instances))
unfolding emit_event
emit_event-posted event_type host = emit_to-posted event_type (map (λ e. e.1) host.instances) host
