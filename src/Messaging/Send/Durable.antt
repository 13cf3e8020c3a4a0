-- ===== src/Messaging/Send/Durable.antt =====
-- What sending leaves in the outbox.
use y5fgb.Messaging.Store
use y5fgb.Messaging.Flush.{refresh_outbox, Client, Round, finished, thrown, flush_round}
use y5fgb.Common.{
  Text, find, ◌≡◌, List, ◌∷◌, update_first_of_missing, ◌++◌, or_default, none, ap, [], eq_text, sym,
  find-concat_by, lt_text, any, any_of_find, refl, some, subst, find-sort_by, ◌∙◌, sort_by, has_key,
  false, IsDistinctBy, IsDistinctBy-concat, eq_text_refl, if◌then◌else◌, ◌==◌, length, Option,
}
use y5fgb.Messaging.Model.{OutboxItem, AttachmentSecret, LocalMessage}
use y5fgb.Messaging.Database.{OutboxRow, Database, enqueue_outbox_row, is_outbox_row, outbox_rows}
use y5fgb.Messaging.Send.{
  send_request, send_message, send_from, queue_and_flush, begin_sending, send_failed, encrypt_input,
  queued_message,
}
use y5fgb.Messaging.Outgoing.{
  Sender, SendInput, upload_attachments, passed, create_optimistic_message,
}
use y5fgb.Messaging.Crypto.{EncryptedMessage}
use y5fgb.Messaging.LocalStore.{enqueue_outbox, list_outbox, outbox_item}
use y5fgb.Messaging.LocalStore.Opening.{find-open_all}
use y5fgb.Messaging.Flush.Outbox.{
  client_of, outbox_item-id, settled, retried, is_kept, flush_round-settled,
}
use y5fgb.Messaging.Hydrate.{resolve_recipients}

-- The row and the item of the message.
abbrev pub sent_row : Sender → SendInput → List AttachmentSecret → EncryptedMessage → OutboxRow
sent_row sender input secrets encrypted = record {
  client_message_id = sender.fresh_id;
  conversation_id = input.conversation.id;
  payload =
      sender.environment.requests.seal sender.environment.nonce
        (send_request sender input secrets encrypted);
  created_at = sender.environment.now;
  retry_count = 0;
}

abbrev pub sent_item : Sender → SendInput → List AttachmentSecret → EncryptedMessage → OutboxItem
sent_item sender input secrets encrypted = record {
  client_message_id = sender.fresh_id;
  conversation_id = input.conversation.id;
  payload = send_request sender input secrets encrypted;
  created_at = sender.environment.now;
  retry_count = 0;
}

-- The database with the message in the outbox.
abbrev pub enqueued :
    Sender → SendInput → List AttachmentSecret → EncryptedMessage → Database → Database
enqueued sender input secrets encrypted db =
    enqueue_outbox sender.environment.requests sender.environment.nonce sender.fresh_id
      input.conversation.id (send_request sender input secrets encrypted) sender.environment.now db

-- What the codec makes of the request opens again.
abbrev pub IsReadable : Sender → SendInput → List AttachmentSecret → EncryptedMessage → Type 0
IsReadable sender input secrets encrypted =
    let request = send_request sender input secrets encrypted in
    sender.environment.requests.unseal
      (sender.environment.requests.seal sender.environment.nonce request)
    ≡ some request

abbrev pub row_id : OutboxRow → Text
row_id r = r.client_message_id

abbrev item_id : OutboxItem → Text
item_id i = i.client_message_id

module _ (sender : Sender) (input : SendInput) (secrets : List AttachmentSecret)
    (encrypted : EncryptedMessage) where
  abbrev row : OutboxRow
  row = sent_row sender input secrets encrypted

  enqueued-outbox :
      (db : Database)
      → find (is_outbox_row sender.fresh_id) db.outbox ≡ none
      → (enqueued sender input secrets encrypted db).outbox ≡ db.outbox ++ row ∷ []
  unfolding enqueue_outbox enqueue_outbox_row
  enqueued-outbox db fresh =
      let missing = update_first_of_missing (is_outbox_row sender.fresh_id) _ db.outbox fresh in
      ap (λ o. or_default o (db.outbox ++ row ∷ [])) missing

  sealed_item :
      IsReadable sender input secrets encrypted
      → outbox_item sender.environment.requests row
        ≡ some (sent_item sender input secrets encrypted)
  unfolding outbox_item
  sealed_item opens = rw (outbox_item, opens) refl

  module _ (db : Database) (fresh : find (is_outbox_row sender.fresh_id) db.outbox ≡ none)
      (distinct : IsDistinctBy row_id db.outbox) where
    new_id : any (has_key row_id sender.fresh_id) db.outbox ≡ false
    unfolding is_outbox_row
    new_id = any_of_find (has_key row_id sender.fresh_id) db.outbox fresh

    enqueued-IsDistinctBy : IsDistinctBy row_id (enqueued sender input secrets encrypted db).outbox
    enqueued-IsDistinctBy =
        subst (IsDistinctBy row_id) (sym (enqueued-outbox db fresh))
          (IsDistinctBy-concat row_id row db.outbox new_id distinct)

    find-enqueued :
        find (is_outbox_row sender.fresh_id) (enqueued sender input secrets encrypted db).outbox
        ≡ some row
    unfolding is_outbox_row
    find-enqueued =
        ap (find (has_key row_id sender.fresh_id)) (enqueued-outbox db fresh)
        ∙ find-concat_by row_id row sender.fresh_id db.outbox new_id
        ∙ rw (eq_text_refl sender.fresh_id) refl

    find-listed :
        (items : List OutboxItem)
        → IsReadable sender input secrets encrypted
        → list_outbox sender.environment.requests (enqueued sender input secrets encrypted db)
          ≡ some items
        → find (λ (i : OutboxItem). eq_text i.client_message_id sender.fresh_id) items
          ≡ some (sent_item sender input secrets encrypted)
    unfolding list_outbox outbox_rows is_outbox_row
    find-listed items opens read =
        let codec = sender.environment.requests in
        let order = λ (a b : OutboxRow). lt_text b.created_at a.created_at in
        let all = (enqueued sender input secrets encrypted db).outbox in
        find-open_all (outbox_item codec) row_id item_id (outbox_item-id codec) sender.fresh_id
          (sort_by order all) items row (sent_item sender input secrets encrypted) read
          (find-sort_by row_id order sender.fresh_id all enqueued-IsDistinctBy ∙ find-enqueued)
          (sealed_item opens)

client_of-sent :
    (sender : Sender) (input : SendInput) (device : Text) (round : Round)
    → (client_of (elim round [
      | finished flushed ↦ finished flushed
      | thrown stopped ↦ send_failed sender input device sender.store_error stopped
    ])).database
      ≡ (client_of round).database
unfolding client_of send_failed
client_of-sent sender input device (finished client) = refl
client_of-sent sender input device (thrown client) = refl

find-queue_and_flush :
    (sender : Sender) (input : SendInput) (secrets : List AttachmentSecret)
    (encrypted : EncryptedMessage) (optimistic : LocalMessage) (client : Client) (token : Text)
    (items : List OutboxItem)
    → sender.environment.access_token ≡ some token
    → IsReadable sender input secrets encrypted
    → find (is_outbox_row sender.fresh_id) client.database.outbox ≡ none
    → IsDistinctBy row_id client.database.outbox
    → list_outbox sender.environment.requests
        (enqueued sender input secrets encrypted client.database)
      ≡ some items
    → find
        (is_outbox_row sender.fresh_id)
        (client_of
          (queue_and_flush sender input optimistic secrets encrypted client)).database.outbox
      ≡ (if is_kept sender.environment (sent_item sender input secrets encrypted)
          then some (record (sent_row sender input secrets encrypted) { retry_count = 1 })
          else none)
unfolding queue_and_flush refresh_outbox settled retried
find-queue_and_flush sender input secrets encrypted optimistic client token items signed_in opens
      fresh distinct read =
    let env = sender.environment in
    let db = enqueued sender input secrets encrypted client.database in
    let queued : Client = record {
      database = db;
      messaging =
          Store.upsert_message env.now input.conversation.id
            (queued_message env.now secrets encrypted optimistic) client.messaging;
      sent = client.sent;
    } in
    let refreshed : Client = record queued {
      messaging = Store.set_outbox items queued.messaging;
    } in
    let round : queue_and_flush sender input optimistic secrets encrypted client
        ≡ flush_round env refreshed =
      rw (queue_and_flush, refresh_outbox, read) refl in
    ap (λ r. find (is_outbox_row sender.fresh_id) (client_of r).database.outbox) round
    ∙ (flush_round-settled env refreshed token items sender.fresh_id signed_in read
        (enqueued-IsDistinctBy sender input secrets encrypted client.database fresh distinct)).1
    ∙ ap (settled env sender.fresh_id items)
        (find-enqueued sender input secrets encrypted client.database fresh distinct)
    ∙ rw
        (
          settled,
          find-listed sender input secrets encrypted client.database fresh distinct items opens
              read,
        )
        refl

-- A message whose attachments were uploaded and that was encrypted for some device is not lost: after
-- `sendMessage` its request is the payload of a row of the outbox with one retry, where the server
-- refused it for now, and the row is gone where the server took it or refused it for good. There is a
-- token and a session, the id of the message is new, the ids of the rows are distinct, every payload
-- opens, and the sealed request does so too.
pub send_message-settled :
    (sender : Sender) (input : SendInput) (client : Client) (token device : Text)
    (secrets : List AttachmentSecret) (encrypted : EncryptedMessage) (items : List OutboxItem)
    → sender.environment.access_token ≡ some token
    → sender.environment.session_device ≡ some device
    → (length (resolve_recipients input.conversation) == 0) ≡ false
    → upload_attachments sender input.uploads ≡ passed secrets
    → encrypt_input sender input (resolve_recipients input.conversation) secrets ≡ passed encrypted
    → IsReadable sender input secrets encrypted
    → find (is_outbox_row sender.fresh_id) client.database.outbox ≡ none
    → IsDistinctBy row_id client.database.outbox
    → list_outbox sender.environment.requests
        (enqueued sender input secrets encrypted client.database)
      ≡ some items
    → find
        (is_outbox_row sender.fresh_id)
        (client_of (send_message sender input client)).database.outbox
      ≡ (if is_kept sender.environment (sent_item sender input secrets encrypted)
          then some (record (sent_row sender input secrets encrypted) { retry_count = 1 })
          else none)
unfolding send_message send_from begin_sending
send_message-settled sender input client token device secrets encrypted items signed_in session
      trusted uploaded sealed opens fresh distinct read =
    let env = sender.environment in
    let optimistic = create_optimistic_message sender input device in
    let begun = begin_sending sender input device client in
    let round = queue_and_flush sender input optimistic secrets encrypted begun in
    let in_session : Option Text → Round =
      λ o. elim o [ none ↦ thrown client | some d ↦ send_from sender input d client ] in
    let from : send_message sender input client ≡ send_from sender input device client =
      ap
        (λ o. elim o as (λ _. Round) [
          | none ↦ thrown client
          | some _ ↦ in_session env.session_device
        ])
        signed_in
      ∙ ap in_session session in
    let flushed : (client_of (send_from sender input device client)).database
        ≡ (client_of round).database =
      rw (send_from, trusted, uploaded) (rw sealed (client_of-sent sender input device round)) in
    let sent = ap (λ r. (client_of r).database) from ∙ flushed in
    ap (λ (db : Database). find (is_outbox_row sender.fresh_id) db.outbox) sent
    ∙ find-queue_and_flush sender input secrets encrypted optimistic begun token items signed_in
        opens fresh distinct read
