-- ===== src/Messaging/Model.antt =====
-- The data of the messaging client: the DTOs of packages/protocol/src/index.ts that its state holds,
-- and `LocalMessage` of apps/client-desktop/src/state/messagingStore.ts. A nullable or optional
-- field is an `Option`; `none` is `null`, or a property that is absent. Sequence numbers, sizes and
-- counters are the non-negative integers that the server sends.
use y5fgb.Common.{ℕ, Bool, Option, List, Text}

pub data DeliveryState : Type 0 where
  pending queued sent delivered failed expired : DeliveryState

pub data Lifecycle : Type 0 where
  draft encrypting queued sending sent delivered failed expired : Lifecycle

pub data ReceiptType : Type 0 where
  delivered read : ReceiptType

pub data ConversationType : Type 0 where
  direct group : ConversationType

pub data ConversationRole : Type 0 where
  owner admin member : ConversationRole

pub data DeviceStatus : Type 0 where
  pending trusted revoked blocked : DeviceStatus

pub data AttachmentKind : Type 0 where
  image file : AttachmentKind

-- `DeviceDTO`, the fields that messaging reads.
pub record Device : Type 0 where
  pub id : Text
  pub account_id : Text
  pub public_device_material : Text
  pub status : DeviceStatus

pub record Member : Type 0 where
  pub account_id : Text
  pub role : ConversationRole
  pub joined_at : Text
  pub is_active : Bool
  pub trusted_devices : List Device

pub record Conversation : Type 0 where
  pub id : Text
  pub type : ConversationType
  pub title : Option Text
  pub created_by_account_id : Text
  pub created_at : Text
  pub updated_at : Text
  pub default_ttl_seconds : ℕ
  pub allow_per_message_override : Bool
  pub members : List Member
  pub last_server_sequence : ℕ

pub record RecipientKey : Type 0 where
  pub recipient_device_id : Text
  pub wrapped_key : Text
  pub key_algorithm : Text

pub record AttachmentMeta : Type 0 where
  pub id : Text
  pub kind : AttachmentKind
  pub file_name : Text
  pub mime_type : Text
  pub size_bytes : ℕ
  pub checksum_sha256 : Text
  pub algorithm : Text
  pub nonce : Text
  pub created_at : Text

pub record Envelope : Type 0 where
  pub id : Text
  pub conversation_id : Text
  pub sender_account_id : Text
  pub sender_device_id : Text
  pub client_message_id : Text
  pub algorithm : Text
  pub crypto_version : ℕ
  pub nonce : Text
  pub ciphertext : Text
  pub recipients : List RecipientKey
  pub attachments : List AttachmentMeta
  pub reply_to_message_id : Option Text
  pub ttl_seconds : Option ℕ
  pub created_at : Text
  pub expires_at : Option Text
  pub server_sequence : ℕ

pub record Receipt : Type 0 where
  pub id : Text
  pub message_id : Text
  pub device_id : Text
  pub receipt_type : ReceiptType
  pub created_at : Text

-- `MessageDTO`
pub record Message : Type 0 where
  pub envelope : Envelope
  pub delivery_state : DeliveryState
  pub delivered_at : Option Text
  pub failed_reason : Option Text
  pub receipts : List Receipt

pub record AttachmentSecret : Type 0 where
  pub attachment_id : Text
  pub file_name : Text
  pub mime_type : Text
  pub size_bytes : ℕ
  pub symmetric_key : Text
  pub nonce : Text
  pub checksum_sha256 : Text
  pub algorithm : Text

pub record Plaintext : Type 0 where
  pub text : Text
  pub attachments : List AttachmentSecret
  pub created_at : Option Text

-- `LocalMessage extends MessageDTO`. The store tolerates a message without a lifecycle or a time.
pub record LocalMessage : Type 0 where
  pub base : Message
  pub open base use *
  pub plaintext : Option Plaintext
  pub decrypt_error : Option Text
  pub is_expired : Option Bool
  pub lifecycle : Option Lifecycle
  pub retryable_failure : Option Bool
  pub failure_code : Option Text
  pub last_updated_at : Option Text

-- `SendMessageRequest`
pub record SendRequest : Type 0 where
  pub client_message_id : Text
  pub algorithm : Text
  pub crypto_version : ℕ
  pub nonce : Text
  pub ciphertext : Text
  pub recipients : List RecipientKey
  pub attachment_ids : List Text
  pub reply_to_message_id : Option Text
  pub ttl_seconds : Option ℕ

-- `OutboxItem` of services/messaging/localEncryptedStore.ts.
pub record OutboxItem : Type 0 where
  pub client_message_id : Text
  pub conversation_id : Text
  pub payload : SendRequest
  pub created_at : Text
  pub retry_count : ℕ
