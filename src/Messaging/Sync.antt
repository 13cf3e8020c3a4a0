-- ===== src/Messaging/Sync.antt =====
-- `syncOnce`, `applySyncBatch` and `hydrateMessage` of
-- apps/client-desktop/src/services/messaging/runtime.ts, and the answer that they get: `SyncPoll` and
-- `syncFromCursor` of apps/relay-server/internal/service/messaging/service.go over the queries of
-- apps/relay-server/internal/repository/postgres/.
pub mod Cursor
use y5fgb.Messaging.Store
use y5fgb.Messaging.Model.{ReceiptType, Message, LocalMessage, Receipt}
use y5fgb.Common.{
  ◌++◌, Text, ℕ, [], ◌==◌, take, map, leb, List, length, eq_text, Bool, not, filter, false,
  or_default, Option, ◌&&◌, any, ◌∷◌, true, if◌then◌else◌, sort_by, integer, some, ltb, ◌||◌, max,
  none,
}
use y5fgb.Messaging.Store.{TransportPatch}
use y5fgb.Messaging.Flush.{Environment, Client}
use y5fgb.Messaging.Database.{write_sync_cursor, read_sync_cursor}
use y5fgb.Messaging.LocalStore.{save_message}

-- What the server holds for one device: the messages addressed to it, in the order in which they were
-- inserted, and its cursor. `is_live` says whether a message is not expired at the time of the query.
pub record Mailbox : Type 0 where
  pub messages : List Message
  pub is_live : Message → Bool
  pub last_cursor : ℕ

pub data SyncEvent : Type 0 where
  message_event : Message → SyncEvent
  receipt_event : Receipt → SyncEvent

pub record SyncBatch : Type 0 where
  pub from_cursor : ℕ
  pub to_cursor : ℕ
  pub events : List SyncEvent
  pub has_more : Bool

abbrev pub sequence_of : Message → ℕ
sequence_of m = m.envelope.server_sequence

abbrev normalized_limit : ℕ → ℕ
normalized_limit limit = if limit == 0 || ltb 200 limit then 100 else limit

-- `ListDeliverableMessagesSince`
unfoldable pub list_deliverable_messages_since : Mailbox → ℕ → ℕ → List Message
list_deliverable_messages_since mailbox since limit = take (normalized_limit limit) (
    sort_by (λ (a b : Message). ltb (sequence_of b) (sequence_of a))
      (filter (λ m. ltb since (sequence_of m) && mailbox.is_live m) mailbox.messages))

-- The loop that raises the cursor to the highest sequence.
unfoldable pub raise_cursor : ℕ → List Message → ℕ
raise_cursor cursor [] = cursor
raise_cursor cursor (m ∷ ms) =
    raise_cursor (if ltb cursor (sequence_of m) then sequence_of m else cursor) ms

-- `syncFromCursor`: the batch and the mailbox with its cursor moved. Where `SyncPoll` waits, this is
-- its last query; the earlier ones found nothing. That the messages are marked as delivered is left
-- out.
unfoldable pub sync_from_cursor : Mailbox → ℕ → ℕ → SyncBatch × Mailbox
unfolding list_deliverable_messages_since raise_cursor
sync_from_cursor mailbox from_cursor limit =
    let messages = list_deliverable_messages_since mailbox from_cursor limit in
    let to_cursor = raise_cursor from_cursor messages in
    (
      record {
        from_cursor = from_cursor;
        to_cursor = to_cursor;
        events = map message_event messages;
        has_more = leb (normalized_limit limit) (length messages);
      },
      record mailbox { last_cursor = max mailbox.last_cursor to_cursor },
    )

-- `SyncPoll`
unfoldable pub sync_poll : Mailbox → ℕ → ℕ → SyncBatch × Mailbox
unfolding sync_from_cursor
sync_poll mailbox requested_cursor limit =
    sync_from_cursor mailbox (max mailbox.last_cursor requested_cursor) limit

-- The receipt that the client owes for a message, where it owes one.
unfoldable pub owes_receipt : Text → LocalMessage → Bool
owes_receipt device m =
    not (eq_text m.envelope.sender_device_id device)
    && not (
        any
          (λ (r : Receipt).
            eq_text r.device_id device
            && elim r.receipt_type [ ReceiptType.delivered ↦ true | ReceiptType.read ↦ false ])
          m.receipts)

-- The body of the loop of `applySyncBatch`: the client, and the messages for which a receipt is sent.
-- A receipt that the server refuses is only logged.
unfoldable pub apply_event :
    Environment → Text → SyncEvent → Client × List Text → Client × List Text
unfolding owes_receipt
apply_event env device (receipt_event receipt) state = state
apply_event env device (message_event message) (client, receipts) =
    let hydrated = env.hydrate message in
    (
      record {
        database = save_message env.messages env.nonce message client.database;
        messaging =
            Store.upsert_message env.now hydrated.envelope.conversation_id hydrated
              client.messaging;
        sent = client.sent;
      },
      if owes_receipt device hydrated then receipts ++ hydrated.envelope.id ∷ [] else receipts,
    )

unfoldable pub apply_events :
    Environment → Text → List SyncEvent → Client × List Text → Client × List Text
unfolding apply_event
apply_events env device [] state = state
apply_events env device (e ∷ es) state = apply_events env device es (apply_event env device e state)

-- `setTransportState({ lastCursor })`
abbrev cursor_patch : ℕ → TransportPatch
cursor_patch cursor = record {
  mode = none;
  status = none;
  endpoint = none;
  last_error = none;
  last_cursor = some (integer cursor);
}

-- `applySyncBatch`: nothing happens where there is no session.
unfoldable pub apply_sync_batch : Environment → SyncBatch → Client → Client × List Text
unfolding apply_events
apply_sync_batch env batch client = elim env.session_device [
  | none ↦ (client, [])
  | some device ↦
      let (applied, receipts) = apply_events env device batch.events (client, []) in
      (
        record {
          database = write_sync_cursor batch.to_cursor applied.database;
          messaging =
              Store.set_transport_state env.now (cursor_patch batch.to_cursor) applied.messaging;
          sent = applied.sent;
        },
        receipts,
      )
]

-- `syncOnce`, with the mailbox that answers the poll.
unfoldable pub sync_once : Environment → Option ℕ → Client → Mailbox → Client × List Text × Mailbox
unfolding sync_poll apply_sync_batch
sync_once env cursor_hint client mailbox =
    let cursor = max (read_sync_cursor client.database) (or_default cursor_hint 0) in
    let (batch, mailbox') = sync_poll mailbox cursor 100 in
    let (client', receipts) = apply_sync_batch env batch client in (client', receipts, mailbox')
