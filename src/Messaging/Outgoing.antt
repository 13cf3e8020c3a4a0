-- ===== src/Messaging/Outgoing.antt =====
-- What `sendMessage` of apps/client-desktop/src/services/messaging/runtime.ts starts from: its input, the
-- optimistic message, and the uploads of the attachments. The number of seconds to live is a natural
-- number where it is given.
use y5fgb.Messaging.Model.{
  DeliveryState, Lifecycle, AttachmentKind, AttachmentMeta, LocalMessage, Conversation,
  AttachmentSecret, Plaintext,
}
use y5fgb.Common.{
  ℕ, if◌then◌else◌, some, Option, [], starts_with, Text, codes, ltb, none, ◌==◌, ◌∷◌, ◌++◌, List,
}
use y5fgb.Messaging.Crypto.{Bytes, encrypt_attachment, Sodium, Randomness}
use y5fgb.Messaging.Errors.{Thrown}
use y5fgb.Messaging.Flush.{Environment}

-- `UploadInput`
pub record UploadInput : Type 0 where
  pub file_name : Text
  pub mime_type : Text
  pub bytes : Bytes

-- The body of the request that uploads an attachment.
pub record UploadRequest : Type 0 where
  pub kind : AttachmentKind
  pub file_name : Text
  pub mime_type : Text
  pub size_bytes : ℕ
  pub checksum_sha256 : Text
  pub algorithm : Text
  pub nonce : Text
  pub ciphertext : Text

pub data UploadReply : Type 0 where
  uploaded : AttachmentMeta → UploadReply
  refused_upload : Thrown → UploadReply

pub record SendInput : Type 0 where
  pub conversation : Conversation
  pub text : Text
  pub ttl_seconds : Option ℕ
  pub uploads : List UploadInput
  pub reply_to_message_id : Option Text

-- What the sender takes from outside besides the environment of a round: libsodium with its draws, the
-- account of the session, `randomID()`, the date after so many seconds, `JSON.stringify` of the
-- plaintext, the length of decoded base64, the server's answers to uploads, and what libsodium and the local store
-- throw.
pub record Sender : Type 0 where
  pub environment : Environment
  pub sodium : Sodium
  pub random : Randomness
  pub upload_random : UploadInput → Randomness
  pub account_id : Text
  pub fresh_id : Text
  pub date_after : ℕ → Text
  pub stringify : Plaintext → Option Text → Text
  pub decoded_length : Text → ℕ
  pub upload : UploadRequest → UploadReply
  pub crypto_error : Thrown
  pub store_error : Thrown

-- `safePositiveInt` of a natural number.
unfoldable pub safe_positive_int : Option ℕ → Option ℕ
safe_positive_int none = none
safe_positive_int (some n) = if n == 0 then none else some n

-- `createOptimisticMessage`
unfoldable pub create_optimistic_message : Sender → SendInput → Text → LocalMessage
unfolding safe_positive_int
create_optimistic_message sender input sender_device_id =
    let now = sender.environment.now in
    record {
      base = record {
        envelope = record {
          id = codes "local-" ++ sender.fresh_id;
          conversation_id = input.conversation.id;
          sender_account_id = sender.account_id;
          sender_device_id = sender_device_id;
          client_message_id = sender.fresh_id;
          algorithm = codes "pending";
          crypto_version = 1;
          nonce = [];
          ciphertext = [];
          recipients = [];
          attachments = [];
          reply_to_message_id = input.reply_to_message_id;
          ttl_seconds = safe_positive_int input.ttl_seconds;
          created_at = now;
          expires_at = elim input.ttl_seconds [
            | none ↦ none
            | some ttl ↦ if ltb 0 ttl then some (sender.date_after ttl) else none
          ];
          server_sequence = 0;
        };
        delivery_state = DeliveryState.queued;
        delivered_at = none;
        failed_reason = none;
        receipts = [];
      };
      plaintext = some (record { text = input.text; attachments = []; created_at = some now });
      decrypt_error = none;
      is_expired = none;
      lifecycle = some Lifecycle.draft;
      retryable_failure = none;
      failure_code = none;
      last_updated_at = some now;
    }

abbrev pub kind_of : Text → AttachmentKind
kind_of mime_type =
    if starts_with (codes "image/") mime_type then AttachmentKind.image else AttachmentKind.file

-- A step of `sendMessage` that may throw.
pub data Stage {ℓ} (A : Type ℓ) : Type ℓ where
  passed : A → Stage A
  failed : Thrown → Stage A

-- The loop of `uploadAttachments`: the first upload that fails ends it.
unfoldable pub upload_attachments : Sender → List UploadInput → Stage (List AttachmentSecret)
unfolding encrypt_attachment
upload_attachments sender [] = passed []
upload_attachments sender (input ∷ inputs) =
    let rest = upload_attachments sender inputs in
    let sealed = encrypt_attachment sender.sodium (sender.upload_random input) input.bytes in
    let request : UploadRequest = record {
      kind = kind_of input.mime_type;
      file_name = input.file_name;
      mime_type = input.mime_type;
      size_bytes = sender.decoded_length sealed.ciphertext;
      checksum_sha256 = sealed.checksum_sha256;
      algorithm = sealed.algorithm;
      nonce = sealed.nonce;
      ciphertext = sealed.ciphertext;
    } in
    elim (sender.upload request) [
      | refused_upload error ↦ failed error
      | uploaded attachment ↦
          let secret : AttachmentSecret = record {
            attachment_id = attachment.id;
            file_name = attachment.file_name;
            mime_type = attachment.mime_type;
            size_bytes = attachment.size_bytes;
            symmetric_key = sealed.symmetric_key;
            nonce = sealed.nonce;
            checksum_sha256 = sealed.checksum_sha256;
            algorithm = sealed.algorithm;
          } in
          elim rest [ failed error ↦ failed error | passed secrets ↦ passed (secret ∷ secrets) ]
    ]
