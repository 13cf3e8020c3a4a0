-- ===== src/Messaging/Send.antt =====
-- `sendMessage` of apps/client-desktop/src/services/messaging/runtime.ts, from the uploads to the round
-- of the outbox. No other round of `flushOutbox` is under way, and the local store answers.
pub mod Durable
use y5fgb.Messaging.Store
use y5fgb.Messaging.Model.{
  DeliveryState, Lifecycle, AttachmentSecret, AttachmentMeta, SendRequest, LocalMessage, Plaintext,
}
use y5fgb.Messaging.Flush.{
  finished, thrown, refresh_outbox, flush_round, Client, Round, failed_patch,
}
use y5fgb.Messaging.Outgoing.{
  passed, failed, Sender, create_optimistic_message, SendInput, upload_attachments, kind_of, Stage,
}
use y5fgb.Common.{length, ◌==◌, map, if◌then◌else◌, some, List, none, Text}
use y5fgb.Messaging.LocalStore.{enqueue_outbox}
use y5fgb.Messaging.Crypto.{encrypt_message, EncryptedMessage, RecipientMaterial}
use y5fgb.Messaging.Errors.{Thrown, classify_messaging_error}
use y5fgb.Messaging.Hydrate.{resolve_recipients}

-- The description of an attachment in the queued message.
abbrev meta_of : Text → AttachmentSecret → AttachmentMeta
meta_of now secret = record {
  id = secret.attachment_id;
  kind = kind_of secret.mime_type;
  file_name = secret.file_name;
  mime_type = secret.mime_type;
  size_bytes = secret.size_bytes;
  checksum_sha256 = secret.checksum_sha256;
  algorithm = secret.algorithm;
  nonce = secret.nonce;
  created_at = now;
}

unfoldable pub send_request :
    Sender → SendInput → List AttachmentSecret → EncryptedMessage → SendRequest
send_request sender input secrets encrypted = record {
  client_message_id = sender.fresh_id;
  algorithm = encrypted.algorithm;
  crypto_version = encrypted.crypto_version;
  nonce = encrypted.nonce;
  ciphertext = encrypted.ciphertext;
  recipients = encrypted.recipients;
  attachment_ids = map (λ (s : AttachmentSecret). s.attachment_id) secrets;
  reply_to_message_id = input.reply_to_message_id;
  ttl_seconds = input.ttl_seconds;
}

-- The optimistic message once it is encrypted.
unfoldable pub queued_message :
    Text → List AttachmentSecret → EncryptedMessage → LocalMessage → LocalMessage
queued_message now secrets encrypted m = record m {
  base = record m.base {
    envelope = record m.envelope {
      algorithm = encrypted.algorithm;
      crypto_version = encrypted.crypto_version;
      nonce = encrypted.nonce;
      ciphertext = encrypted.ciphertext;
      recipients = encrypted.recipients;
      attachments = map (meta_of now) secrets;
    };
    delivery_state = DeliveryState.queued;
  };
  lifecycle = some Lifecycle.queued;
  last_updated_at = some now;
}

-- What is encrypted, once the attachments are uploaded.
unfoldable pub encrypt_input :
    Sender → SendInput → List RecipientMaterial → List AttachmentSecret → Stage EncryptedMessage
unfolding encrypt_message
encrypt_input sender input recipients secrets =
    let plaintext : Plaintext = record {
      text = input.text;
      attachments = secrets;
      created_at = some sender.environment.now;
    } in
    elim (encrypt_message sender.sodium sender.random
      (sender.stringify plaintext input.reply_to_message_id) recipients) [
        | none ↦ failed sender.crypto_error
        | some encrypted ↦ passed encrypted
      ]

-- From the encrypted message to the round of `flushOutbox`.
unfoldable pub queue_and_flush :
    Sender → SendInput → LocalMessage → List AttachmentSecret → EncryptedMessage → Client → Round
unfolding enqueue_outbox send_request queued_message refresh_outbox flush_round
queue_and_flush sender input optimistic secrets encrypted client =
    let env = sender.environment in
    let queued : Client = record {
      database =
          enqueue_outbox env.requests env.nonce sender.fresh_id input.conversation.id
            (send_request sender input secrets encrypted) env.now client.database;
      messaging =
          Store.upsert_message env.now input.conversation.id
            (queued_message env.now secrets encrypted optimistic) client.messaging;
      sent = client.sent;
    } in
    elim (refresh_outbox env queued) [
      | thrown refreshed ↦ thrown refreshed
      | finished refreshed ↦ flush_round env refreshed
    ]

-- The `catch` of `sendMessage`.
unfoldable pub send_failed : Sender → SendInput → Text → Thrown → Client → Round
send_failed sender input device error client =
    let env = sender.environment in
    thrown (record client {
      messaging =
          Store.update_message_lifecycle env.now input.conversation.id device sender.fresh_id
            (failed_patch (classify_messaging_error env.translate error)) client.messaging;
    })

-- The client while the message is encrypted.
unfoldable pub begin_sending : Sender → SendInput → Text → Client → Client
unfolding create_optimistic_message
begin_sending sender input device client =
    let env = sender.environment in
    record client {
      messaging =
          Store.update_message_lifecycle env.now input.conversation.id device sender.fresh_id
            (record {
              lifecycle = Lifecycle.encrypting;
              retryable_failure = none;
              failure_code = none;
            })
            (Store.upsert_message env.now input.conversation.id
              (create_optimistic_message sender input device) client.messaging);
    }

-- `sendMessage` in a session of the device.
unfoldable pub send_from : Sender → SendInput → Text → Client → Round
unfolding create_optimistic_message upload_attachments encrypt_input queue_and_flush send_failed
    begin_sending resolve_recipients
send_from sender input device client =
    let recipients = resolve_recipients input.conversation in
    let optimistic = create_optimistic_message sender input device in
    let begun = begin_sending sender input device client in
    if length recipients == 0
    then thrown client
    else elim (upload_attachments sender input.uploads) [
      | failed error ↦ send_failed sender input device error begun
      | passed secrets ↦ elim (encrypt_input sender input recipients secrets) [
        | failed error ↦ send_failed sender input device error begun
        | passed encrypted ↦
            elim (queue_and_flush sender input optimistic secrets encrypted begun) [
              | finished flushed ↦ finished flushed
              | thrown stopped ↦ send_failed sender input device sender.store_error stopped
            ]
      ]
    ]

-- `sendMessage`: without a token or a session it throws.
unfoldable pub send_message : Sender → SendInput → Client → Round
unfolding send_from
send_message sender input client = elim sender.environment.access_token [
  | none ↦ thrown client
  | some token ↦ elim sender.environment.session_device [
    | none ↦ thrown client
    | some device ↦ send_from sender input device client
  ]
]
