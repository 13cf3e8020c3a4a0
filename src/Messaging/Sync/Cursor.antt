-- ===== src/Messaging/Sync/Cursor.antt =====
-- Where the cursors go over a series of polls, and which messages never arrive.
use y5fgb.Common.{
  or_default, if◌then◌else◌, ltb, ◌≤◌, All, max, Bool, Option, ◌<◌, arith, ◌∷◌, [], List, ℕ,
  All-sort_by, some, All-weaken, All-take, All-map, ◌≡◌, ◌&&◌, ◌||◌, ◌==◌, true, All-filter_passed,
}
use y5fgb.Messaging.Flush.{Client, Environment}
use y5fgb.Messaging.Sync.{
  raise_cursor, SyncEvent, sync_poll, SyncBatch, list_deliverable_messages_since, Mailbox,
  read_sync_cursor, sync_once, sequence_of, message_event, sync_from_cursor, receipt_event,
}
use y5fgb.Messaging.Model.{Message}

-- One poll: its hint, and what the mailbox holds at that time.
pub record Occasion : Type 0 where
  pub hint : Option ℕ
  pub messages : List Message
  pub is_live : Message → Bool

abbrev mailbox_at : Occasion → ℕ → Mailbox
mailbox_at o cursor = record { messages = o.messages; is_live = o.is_live; last_cursor = cursor }

-- The messages of the batch of one poll.
abbrev pub polled : Occasion → Client → ℕ → SyncBatch
polled o client cursor =
    (sync_poll (mailbox_at o cursor) (max (read_sync_cursor client.database) (or_default o.hint 0))
      100).0

-- The batches that the client receives over a series of polls, from a cursor of the server on.
unfoldable pub received : Environment → List Occasion → Client → ℕ → List SyncBatch
received env [] client cursor = []
received env (o ∷ os) client cursor =
    let (client', _, mailbox') = sync_once env o.hint client (mailbox_at o cursor) in
    polled o client cursor ∷ received env os client' mailbox'.last_cursor

-- Every message of a batch is above a cursor.
abbrev IsAboveEvent : ℕ → SyncEvent → Type 0
IsAboveEvent bound (message_event m) = bound < sequence_of m
IsAboveEvent bound (receipt_event r) = Unit

abbrev pub IsAbove : ℕ → SyncBatch → Type 0
IsAbove bound batch = All (IsAboveEvent bound) batch.events

raise_cursor-le : (cursor : ℕ) (ms : List Message) → cursor ≤ raise_cursor cursor ms
unfolding raise_cursor
raise_cursor-le cursor [] = omega arith
raise_cursor-le cursor (m ∷ ms) =
    let next = if ltb cursor (sequence_of m) then sequence_of m else cursor in
    let more = raise_cursor-le next ms in let step : cursor ≤ next = ground arith in omega arith

deliverable-above :
    (mailbox : Mailbox) (since limit : ℕ)
    → All (λ m. since < sequence_of m) (list_deliverable_messages_since mailbox since limit)
unfolding list_deliverable_messages_since
deliverable-above mailbox since limit =
    let is_new : Message → Bool = λ m. ltb since (sequence_of m) && mailbox.is_live m in
    let order : Message → Message → Bool = λ a b. ltb (sequence_of b) (sequence_of a) in
    let above : Message → Type 0 = λ m. since < sequence_of m in
    All-take above (if limit == 0 || ltb 200 limit then 100 else limit) _ (
      All-sort_by order above _ (
        All-weaken (λ m. is_new m ≡ true) above (λ m e. ground arith) _
          (All-filter_passed is_new mailbox.messages)))

sync_poll-IsAbove :
    (mailbox : Mailbox) (requested limit bound : ℕ)
    → bound ≤ max mailbox.last_cursor requested
    → IsAbove bound (sync_poll mailbox requested limit).0
      × (bound ≤ (sync_poll mailbox requested limit).1.last_cursor)
unfolding sync_poll sync_from_cursor
sync_poll-IsAbove mailbox requested limit bound h =
    let from = max mailbox.last_cursor requested in
    let messages = list_deliverable_messages_since mailbox from limit in
    let raised = raise_cursor-le from messages in
    (
      All-map (IsAboveEvent bound) message_event messages (
          All-weaken (λ m. from < sequence_of m) (λ m. bound < sequence_of m) (λ m k. omega arith) _
            (deliverable-above mailbox from limit)),
      omega arith,
    )

received-IsAbove :
    (env : Environment) (os : List Occasion) (client : Client) (cursor bound : ℕ)
    → bound ≤ cursor
    → All (IsAbove bound) (received env os client cursor)
unfolding received sync_once
received-IsAbove env [] client cursor bound h = tt
received-IsAbove env (o ∷ os) client cursor bound h =
    let requested = max (read_sync_cursor client.database) (or_default o.hint 0) in
    let (above, moved) =
      sync_poll-IsAbove (mailbox_at o cursor) requested 100 bound (omega arith) in
    (above, received-IsAbove env os _ _ bound moved)

-- A poll with a hint asks for what lies above the hint: from then on no batch holds a message whose
-- sequence is at most the hint, whatever the server receives and however the client polls.
pub received-IsAbove_hint :
    (env : Environment) (o : Occasion) (os : List Occasion) (client : Client) (cursor hint : ℕ)
    → o.hint ≡ some hint
    → All (IsAbove hint) (received env (o ∷ os) client cursor)
unfolding received sync_once
received-IsAbove_hint env o os client cursor hint e =
    let requested = max (read_sync_cursor client.database) (or_default o.hint 0) in
    let asked : hint ≤ requested = rw e (omega arith) in
    let (above, moved) = sync_poll-IsAbove (mailbox_at o cursor) requested 100 hint (omega arith) in
    (above, received-IsAbove env os _ _ hint moved)
