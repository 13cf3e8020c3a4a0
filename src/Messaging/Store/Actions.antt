-- ===== src/Messaging/Store/Actions.antt =====
-- Sequences of actions of `useMessagingStore`, as components and the messaging runtime call them.
use y5fgb.Messaging.Store
use y5fgb.Messaging.Model.{Conversation, LocalMessage, OutboxItem}
use y5fgb.Messaging.Store.{MessagingState, LifecyclePatch, TransportPatch}
use y5fgb.Common.{[], List, Number, ◌∷◌, Text, Option, Bool}

-- What the actions of the store are, for the sequences in which components call them.
pub data Action : Type 0 where
  set_initialized set_loading : Bool → Action
  set_conversations : List Conversation → Action
  upsert_conversation : Conversation → Action
  set_messages : Text → Text → List LocalMessage → Action
  upsert_message : Text → Text → LocalMessage → Action
  update_message_lifecycle : Text → Text → Text → Text → LifecyclePatch → Action
  remove_message_by_client_reference : Text → Text → Text → Action
  set_active_conversation : Option Text → Action
  mark_conversation_read : Text → Option Number → Action
  set_outbox : List OutboxItem → Action
  set_transport_state : Text → TransportPatch → Action
  reset : Action

unfoldable pub apply : Action → MessagingState → MessagingState
apply (Action.set_initialized b) s = Store.set_initialized b s
apply (Action.set_loading b) s = Store.set_loading b s
apply (Action.set_conversations cs) s = Store.set_conversations cs s
apply (Action.upsert_conversation c) s = Store.upsert_conversation c s
apply (Action.set_messages now c ms) s = Store.set_messages now c ms s
apply (Action.upsert_message now c m) s = Store.upsert_message now c m s
apply (Action.update_message_lifecycle now c d m p) s = Store.update_message_lifecycle now c d m p s
apply (Action.remove_message_by_client_reference c d m) s =
    Store.remove_message_by_client_reference c d m s
apply (Action.set_active_conversation c) s = Store.set_active_conversation c s
apply (Action.mark_conversation_read c n) s = Store.mark_conversation_read c n s
apply (Action.set_outbox items) s = Store.set_outbox items s
apply (Action.set_transport_state now p) s = Store.set_transport_state now p s
apply Action.reset s = Store.reset s

unfoldable pub run : List Action → MessagingState → MessagingState
run [] s = s
run (a ∷ as') s = run as' (apply a s)
