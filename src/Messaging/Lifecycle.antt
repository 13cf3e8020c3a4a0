-- ===== src/Messaging/Lifecycle.antt =====
-- apps/client-desktop/src/services/messaging/lifecycle.ts, and `lifecycleFromDeliveryState` of
-- apps/client-desktop/src/state/messagingStore.ts, which is the same function of its own.
use y5fgb.Common.{◌≡◌, refl, Bool, true, false, none, some, or_default, arith}
use y5fgb.Messaging.Model.{DeliveryState, Lifecycle, LocalMessage}

unfoldable pub message_lifecycle_from_delivery_state : DeliveryState → Bool → Lifecycle
message_lifecycle_from_delivery_state _ true = Lifecycle.expired
message_lifecycle_from_delivery_state DeliveryState.queued false = Lifecycle.queued
message_lifecycle_from_delivery_state DeliveryState.sent false = Lifecycle.sent
message_lifecycle_from_delivery_state DeliveryState.delivered false = Lifecycle.delivered
message_lifecycle_from_delivery_state DeliveryState.failed false = Lifecycle.failed
message_lifecycle_from_delivery_state DeliveryState.expired false = Lifecycle.expired
message_lifecycle_from_delivery_state DeliveryState.pending false = Lifecycle.sending

unfoldable pub derive_message_lifecycle : LocalMessage → Lifecycle
unfolding message_lifecycle_from_delivery_state
derive_message_lifecycle message = elim message.lifecycle [
  | some lifecycle ↦ lifecycle
  | none ↦
      message_lifecycle_from_delivery_state message.delivery_state
        (or_default message.is_expired false)
]

unfoldable pub is_terminal_lifecycle : Lifecycle → Bool
is_terminal_lifecycle Lifecycle.failed = true
is_terminal_lifecycle Lifecycle.delivered = true
is_terminal_lifecycle Lifecycle.expired = true
is_terminal_lifecycle _ = false

-- The store's private copy, by cases of the switch.
lifecycle_by_state : DeliveryState → Lifecycle
lifecycle_by_state DeliveryState.queued = Lifecycle.queued
lifecycle_by_state DeliveryState.sent = Lifecycle.sent
lifecycle_by_state DeliveryState.delivered = Lifecycle.delivered
lifecycle_by_state DeliveryState.failed = Lifecycle.failed
lifecycle_by_state DeliveryState.expired = Lifecycle.expired
lifecycle_by_state DeliveryState.pending = Lifecycle.sending

unfoldable pub lifecycle_from_delivery_state : LocalMessage → Lifecycle
unfolding lifecycle_by_state
lifecycle_from_delivery_state item = elim item.is_expired [
  | some true ↦ Lifecycle.expired
  | some false ↦ lifecycle_by_state item.delivery_state
  | none ↦ lifecycle_by_state item.delivery_state
]

lifecycle_by_state-eq :
    (d : DeliveryState) → lifecycle_by_state d ≡ message_lifecycle_from_delivery_state d false
unfolding lifecycle_by_state message_lifecycle_from_delivery_state
lifecycle_by_state-eq DeliveryState.queued = refl
lifecycle_by_state-eq _ = refl

-- The store's copy and the service's function agree on every message that has no lifecycle yet.
pub lifecycle_copies_agree :
    (m : LocalMessage)
    → m.lifecycle ≡ none
    → lifecycle_from_delivery_state m ≡ derive_message_lifecycle m
unfolding lifecycle_from_delivery_state derive_message_lifecycle
lifecycle_copies_agree m h = ground (arith, lifecycle_by_state-eq m.delivery_state)
