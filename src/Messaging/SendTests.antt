-- ===== src/Messaging/SendTests.antt =====
-- One message from `sendMessage` on.
use y5fgb.Messaging.Store
use y5fgb.Messaging.Errors.{plain_error}
use y5fgb.Messaging.Flush.{Client}
use y5fgb.Messaging.Send.{send_request, encrypt_input, send_message}
use y5fgb.Messaging.Outgoing.{Sender, SendInput, refused_upload, passed, upload_attachments}
use y5fgb.Messaging.RuntimeTests.{environment, sodium, conversation, random, row, request, item}
use y5fgb.Common.{
  some, find, [], ◌∷◌, sort_by, List, length, eq_text, if◌then◌else◌, any, codes, update_first, ◌≡◌,
  has_text, lt_text, refl, none,
}
use y5fgb.Messaging.Crypto.{EncryptedMessage, encrypt_message, wrap_keys, wrap_key}
use y5fgb.Messaging.Model.{OutboxItem, SendRequest}
use y5fgb.Messaging.Hydrate.{resolve_recipients, resolve_members, resolve_devices}
use y5fgb.Messaging.Database.{empty_database, is_outbox_row, outbox_rows, enqueue_outbox_row}
use y5fgb.Messaging.LocalStore.{list_outbox, outbox_item, open_all, enqueue_outbox}
use y5fgb.Messaging.Send.Durable.{enqueued, sent_item, sent_row, send_message-settled}
use y5fgb.Messaging.Flush.Outbox.{client_of, is_kept}

abbrev input : SendInput
input = record {
  conversation = conversation;
  text = codes "hi";
  ttl_seconds = none;
  uploads = [];
  reply_to_message_id = none;
}

abbrev sealed : EncryptedMessage
sealed = record {
  algorithm = codes "xchacha20poly1305_ietf+sealedbox";
  crypto_version = 1;
  nonce = random.nonce;
  ciphertext = codes "hi";
  recipients =
      (record {
        recipient_device_id = codes "d1";
        wrapped_key = 5 ∷ [];
        key_algorithm = codes "x25519-sealedbox";
      })
      ∷ [];
}

-- The request of the new message `m3`.
abbrev new_request : SendRequest
new_request = record {
  client_message_id = codes "m3";
  algorithm = sealed.algorithm;
  crypto_version = 1;
  nonce = sealed.nonce;
  ciphertext = sealed.ciphertext;
  recipients = sealed.recipients;
  attachment_ids = [];
  reply_to_message_id = none;
  ttl_seconds = none;
}

abbrev sender : Sender
sender = record {
  environment = record environment {
    requests = record {
      seal = λ nonce r. r.client_message_id;
      unseal = λ text. if eq_text text (codes "m3") then some new_request else some (request text);
    };
  };
  sodium = sodium;
  random = random;
  upload_random = λ upload. random;
  account_id = codes "a1";
  fresh_id = codes "m3";
  date_after = λ seconds. codes "2024-01-03";
  stringify = λ plaintext reply. plaintext.text;
  decoded_length = length;
  upload = λ request. refused_upload (plain_error []);
  crypto_error = plain_error [];
  store_error = plain_error [];
}

abbrev waiting : Client
waiting = record {
  database = record empty_database { outbox = row "m1" ∷ [] };
  messaging = Store.initial_state;
  sent = [];
}

program : Unit {0}
unfolding resolve_recipients resolve_members resolve_devices has_text any upload_attachments
    encrypt_input encrypt_message wrap_keys wrap_key eq_text is_outbox_row find list_outbox
    outbox_rows outbox_item open_all sort_by lt_text enqueue_outbox enqueue_outbox_row update_first
    send_request
program = tt

abbrev listed : List OutboxItem
listed = item "m1" ∷ sent_item sender input [] sealed ∷ []

encrypts : encrypt_input sender input (resolve_recipients conversation) [] ≡ passed sealed
unfolding program
encrypts = refl

reads :
    list_outbox sender.environment.requests (enqueued sender input [] sealed waiting.database)
    ≡ some listed
unfolding program
reads = refl

-- The server is out of order for `m3`: the row stays, with one retry.
send_message-settled_example :
    find
      (is_outbox_row (codes "m3"))
      (client_of (send_message sender input waiting)).database.outbox
    ≡ (if is_kept sender.environment (sent_item sender input [] sealed)
        then some (record (sent_row sender input [] sealed) { retry_count = 1 })
        else none)
unfolding program
send_message-settled_example =
    send_message-settled sender input waiting (codes "token") (codes "d1") [] sealed listed refl
      refl refl refl encrypts refl refl (refl, tt) reads
