-- ===== src/Messaging/Store.antt =====
-- `useMessagingStore` of apps/client-desktop/src/state/messagingStore.ts: the state and one function
-- for each action. `now` is what `new Date().toISOString()` returns during the action.
pub mod Actions
pub mod Invariant
pub mod Reachable
pub mod Upsert
pub mod Reads
use y5fgb.Messaging.Model.{Conversation, LocalMessage, Lifecycle, OutboxItem}
use y5fgb.Messaging.Merge.{
  ensure_message_defaults, is_same_message, is_same_client_reference, merge_message,
}
use y5fgb.Messaging.Dedupe.{dedupe_and_sort_messages}
use y5fgb.Common.{
  Option, Text, none, Bool, ℕ, update_first, List, false, filter, some, floor_at_zero, integer, [],
  ◌++◌, or_default, Number, insert, eq_text, Dict, not, lookup, if◌then◌else◌, ◌∷◌, is_finite, max,
}

-- `no_transport` is the source's "none".
pub data TransportMode : Type 0 where
  websocket long_poll no_transport : TransportMode

pub data TransportStatus : Type 0 where
  connecting connected degraded offline : TransportStatus

pub record Transport : Type 0 where
  pub mode : TransportMode
  pub status : TransportStatus
  pub endpoint : Option Text
  pub last_error : Option Text
  pub last_cursor : Number
  pub updated_at : Option Text

-- `Partial<transport>`: `none` where the property is absent.
pub record TransportPatch : Type 0 where
  pub mode : Option TransportMode
  pub status : Option TransportStatus
  pub endpoint : Option (Option Text)
  pub last_error : Option (Option Text)
  pub last_cursor : Option Number

pub record MessagingState : Type 0 where
  pub initialized : Bool
  pub loading : Bool
  pub conversations : List Conversation
  pub messages_by_conversation : Dict (List LocalMessage)
  pub active_conversation_id : Option Text
  pub read_positions : Dict ℕ
  pub outbox : List OutboxItem
  pub transport : Transport

abbrev pub initial_transport : Transport
initial_transport = record {
  mode = TransportMode.no_transport;
  status = TransportStatus.offline;
  endpoint = none;
  last_error = none;
  last_cursor = integer 0;
  updated_at = none;
}

abbrev pub initial_state : MessagingState
initial_state = record {
  initialized = false;
  loading = false;
  conversations = [];
  messages_by_conversation = [];
  active_conversation_id = none;
  read_positions = [];
  outbox = [];
  transport = initial_transport;
}

pub set_initialized : Bool → MessagingState → MessagingState
set_initialized value state = record state { initialized = value }

pub set_loading : Bool → MessagingState → MessagingState
set_loading value state = record state { loading = value }

pub set_conversations : List Conversation → MessagingState → MessagingState
set_conversations items state = record state { conversations = items }

-- A conversation that is there is replaced in its place; a new one goes to the front.
unfoldable pub upsert_conversation : Conversation → MessagingState → MessagingState
upsert_conversation item state =
    elim (update_first (λ c. eq_text c.id item.id) (λ _. item) state.conversations) [
      | none ↦ record state { conversations = item ∷ state.conversations }
      | some next ↦ record state { conversations = next }
    ]

-- `state.messagesByConversation[conversationId] ?? []`
unfoldable pub messages_of : MessagingState → Text → List LocalMessage
messages_of state conversation_id =
    or_default (lookup conversation_id state.messages_by_conversation) []

unfoldable pub put_messages : Text → List LocalMessage → MessagingState → MessagingState
put_messages conversation_id items state = record state {
  messages_by_conversation = insert conversation_id items state.messages_by_conversation;
}

unfoldable pub set_messages : Text → Text → List LocalMessage → MessagingState → MessagingState
unfolding put_messages
set_messages now conversation_id items state =
    put_messages conversation_id (dedupe_and_sort_messages now items) state

-- The new list of `upsertMessage`.
unfoldable pub upserted : Text → LocalMessage → List LocalMessage → List LocalMessage
upserted now message current =
    let normalized = ensure_message_defaults now message in
    elim (update_first (is_same_message normalized) (λ old. merge_message now old normalized)
      current) [
        | none ↦ dedupe_and_sort_messages now (current ++ normalized ∷ [])
        | some next ↦ dedupe_and_sort_messages now next
      ]

unfoldable pub upsert_message : Text → Text → LocalMessage → MessagingState → MessagingState
unfolding upserted put_messages messages_of
upsert_message now conversation_id message state =
    put_messages conversation_id (upserted now message (messages_of state conversation_id)) state

-- `Pick<LocalMessage, "lifecycle" | "retryableFailure" | "failureCode">`
pub record LifecyclePatch : Type 0 where
  pub lifecycle : Lifecycle
  pub retryable_failure : Option Bool
  pub failure_code : Option Text

unfoldable pub patch_message : Text → LifecyclePatch → LocalMessage → LocalMessage
patch_message now patch item = record item {
  lifecycle = some patch.lifecycle;
  retryable_failure = patch.retryable_failure;
  failure_code = patch.failure_code;
  last_updated_at = some now;
}

unfoldable pub update_message_lifecycle :
    Text → Text → Text → Text → LifecyclePatch → MessagingState → MessagingState
unfolding patch_message put_messages messages_of
update_message_lifecycle now conversation_id sender_device_id client_message_id patch state =
    elim (update_first (λ item. is_same_client_reference item sender_device_id client_message_id)
      (patch_message now patch) (messages_of state conversation_id)) [
        | none ↦ state
        | some next ↦ put_messages conversation_id next state
      ]

unfoldable pub remove_message_by_client_reference :
    Text → Text → Text → MessagingState → MessagingState
unfolding put_messages messages_of
remove_message_by_client_reference conversation_id sender_device_id client_message_id state =
    put_messages conversation_id
      (filter (λ item. not (is_same_client_reference item sender_device_id client_message_id))
        (messages_of state conversation_id))
      state

pub set_active_conversation : Option Text → MessagingState → MessagingState
set_active_conversation conversation_id state = record state {
  active_conversation_id = conversation_id;
}

-- The position that `markConversationRead` stores, from the old one.
unfoldable pub read_position : ℕ → Option Number → ℕ
read_position existing none = existing
read_position existing (some n) = if is_finite n then max existing (floor_at_zero n) else existing

unfoldable pub mark_conversation_read : Text → Option Number → MessagingState → MessagingState
unfolding read_position
mark_conversation_read conversation_id server_sequence state = record state {
  read_positions =
      insert conversation_id
        (read_position (or_default (lookup conversation_id state.read_positions) 0) server_sequence)
        state.read_positions;
}

pub set_outbox : List OutboxItem → MessagingState → MessagingState
set_outbox items state = record state { outbox = items }

unfoldable pub set_transport_state : Text → TransportPatch → MessagingState → MessagingState
set_transport_state now payload state =
    let t = state.transport in
    record state {
      transport = record {
        mode = or_default payload.mode t.mode;
        status = or_default payload.status t.status;
        endpoint = or_default payload.endpoint t.endpoint;
        last_error = or_default payload.last_error t.last_error;
        last_cursor = or_default payload.last_cursor t.last_cursor;
        updated_at = some now;
      };
    }

pub reset : MessagingState → MessagingState
reset state = initial_state

-- `getCurrentCursor`
unfoldable pub get_current_cursor : MessagingState → ℕ
get_current_cursor state = floor_at_zero state.transport.last_cursor
