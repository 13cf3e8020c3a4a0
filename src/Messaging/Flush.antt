-- ===== src/Messaging/Flush.antt =====
-- The outbox half of apps/client-desktop/src/services/messaging/runtime.ts: one round of
-- `flushOutbox`, and its flags between the rounds. The local store is taken to answer;
-- what the relay server answers is a parameter.
pub mod Outbox
mod Calls
use y5fgb.Messaging.Store
use y5fgb.Common.{
  List, Bool, some, ◌∷◌, [], Text, none, false, Option, true, if◌then◌else◌, ◌++◌, not,
}
use y5fgb.Messaging.Errors.{FailureClass, ClassifiedError, Thrown, classify_messaging_error}
use y5fgb.Messaging.LocalStore.{list_outbox, save_message, Codec}
use y5fgb.Messaging.Model.{Message, OutboxItem, Lifecycle, LocalMessage, SendRequest}
use y5fgb.Messaging.Store.{LifecyclePatch, MessagingState}
use y5fgb.Messaging.Database.{Database, delete_outbox_row, increment_outbox_retry_row}

-- What the rest of the system gives to a round: the access token, the id of the device of the session,
-- the server's answer to each item that is sent, `hydrateMessage`, `i18n.t`, and the codecs of the
-- store. `nonce` is the randomness of one encryption, `now` the time of the round.
pub data Reply : Type 0 where
  accepted : Message → Reply
  rejected : Thrown → Reply

pub record Environment : Type 0 where
  pub access_token : Option Text
  pub session_device : Option Text
  pub reply : OutboxItem → Reply
  pub hydrate : Message → LocalMessage
  pub translate : Text → Text
  pub requests : Codec SendRequest
  pub messages : Codec Message
  pub nonce : Text
  pub now : Text

-- The state that the runtime works on, with a record of what it does outside: the items whose requests
-- went to the server, in the order of sending.
pub record Client : Type 0 where
  pub database : Database
  pub messaging : MessagingState
  pub sent : List OutboxItem

unfoldable pub is_retryable : FailureClass → Bool
is_retryable FailureClass.retryable = true
is_retryable FailureClass.non_retryable = false

-- `updateMessageLifecycle` on the item's message, where there is a session.
unfoldable pub mark_item :
    Environment → OutboxItem → LifecyclePatch → MessagingState → MessagingState
mark_item env item patch state = elim env.session_device [
  | none ↦ state
  | some device ↦
      Store.update_message_lifecycle env.now item.conversation_id device item.client_message_id
        patch state
]

abbrev sending_patch : LifecyclePatch
sending_patch = record {
  lifecycle = Lifecycle.sending;
  retryable_failure = none;
  failure_code = none;
}

abbrev pub failed_patch : ClassifiedError → LifecyclePatch
failed_patch classified = record {
  lifecycle = Lifecycle.failed;
  retryable_failure = some (is_retryable classified.class);
  failure_code = some classified.code;
}

-- The body of the loop over the outbox.
unfoldable pub flush_item : Environment → OutboxItem → Client → Client
unfolding mark_item is_retryable
flush_item env item client =
    let id = item.client_message_id in
    let sent = client.sent ++ item ∷ [] in
    let sending = mark_item env item sending_patch client.messaging in
    elim (env.reply item) [
      | accepted message ↦ record {
        database =
            save_message env.messages env.nonce message (delete_outbox_row id client.database);
        messaging = Store.upsert_message env.now item.conversation_id (env.hydrate message) sending;
        sent = sent;
      }
      | rejected error ↦
          let classified = classify_messaging_error env.translate error in
          record {
            database =
                if is_retryable classified.class
                then increment_outbox_retry_row id client.database
                else delete_outbox_row id client.database;
            messaging = mark_item env item (failed_patch classified) sending;
            sent = sent;
          }
    ]

unfoldable pub flush_items : Environment → List OutboxItem → Client → Client
unfolding flush_item
flush_items env [] client = client
flush_items env (item ∷ items) client = flush_items env items (flush_item env item client)

-- Where the outbox cannot be read, or nobody is signed in, the round throws.
pub data Round : Type 0 where
  finished thrown : Client → Round

-- `refreshOutbox`
unfoldable pub refresh_outbox : Environment → Client → Round
refresh_outbox env client = elim (list_outbox env.requests client.database) [
  | none ↦ thrown client
  | some items ↦ finished (record client { messaging = Store.set_outbox items client.messaging })
]

unfoldable pub flush_round : Environment → Client → Round
unfolding flush_items refresh_outbox
flush_round env client = elim env.access_token [
  | none ↦ thrown client
  | some token ↦ elim (list_outbox env.requests client.database) [
    | none ↦ thrown client
    | some items ↦ elim items [
      | [] ↦ finished (record client { messaging = Store.set_outbox [] client.messaging })
      | item ∷ rest ↦ refresh_outbox env (flush_items env (item ∷ rest) client)
    ]
  ]
]

-- `flushOutbox` between its rounds: `flushOutboxRunning`, `flushOutboxRequested`, and the state that the
-- rounds work on.
pub record Flusher : Type 0 where
  pub client : Client
  pub is_running : Bool
  pub is_requested : Bool

-- A call of `flushOutbox`, and the end of the round that is under way.
pub data FlushEvent : Type 0 where
  called : FlushEvent
  round_ended : Environment → FlushEvent

-- Where a round throws, the `finally` ends the loop and the request stays.
unfoldable pub flush_step : Flusher → FlushEvent → Flusher
flush_step s called =
    if s.is_running
    then record s { is_requested = true }
    else record s { is_running = true; is_requested = false }
flush_step s (round_ended env) = if not s.is_running then s else elim (flush_round env s.client) [
  | thrown client ↦ record s { client = client; is_running = false }
  | finished client ↦
      if s.is_requested
      then record s { client = client; is_requested = false }
      else record s { client = client; is_running = false }
]
