-- ===== src/Messaging/LocalStore.antt =====
-- apps/client-desktop/src/services/messaging/localEncryptedStore.ts over the tables of
-- Messaging/Database. A codec stands for `encryptPayload` and `decryptPayload` of one type of payload
-- under the key of the store; `nonce` is the randomness of one encryption.
pub mod Opening
use y5fgb.Common.{◌∷◌, ℕ, Text, ◌≡◌, [], Option, none, List, some}
use y5fgb.Messaging.Model.{Message, Conversation, SendRequest, OutboxItem}
use y5fgb.Messaging.Database.{
  OutboxRow, Database, upsert_conversation_row, conversation_payloads, message_payloads,
  enqueue_outbox_row, upsert_message_row, outbox_rows,
}

pub record Codec {ℓ} (A : Type ℓ) : Type ℓ where
  pub seal : (nonce : Text) → A → Text
  pub unseal : Text → Option A

-- What the cipher and JSON promise: what was sealed opens.
abbrev pub OpensSealed {ℓ} : {A : Type ℓ} → Codec A → Type ℓ
OpensSealed codec = (nonce : Text) (a : _) → codec.unseal (codec.seal nonce a) ≡ some a

unfoldable pub save_conversation : Codec Conversation → Text → Conversation → Database → Database
save_conversation codec nonce conversation db =
    upsert_conversation_row
      (record {
        id = conversation.id;
        payload = codec.seal nonce conversation;
        updated_at = conversation.updated_at;
      })
      db

-- The loop that opens each payload; `none` where one does not open.
unfoldable pub open_all {ℓ κ} :
    {A : Type ℓ} {B : Type κ} → (A → Option B) → List A → Option (List B)
open_all unseal [] = some []
open_all unseal (x ∷ xs) =
    let rest = open_all unseal xs in
    elim (unseal x) [ none ↦ none | some b ↦ elim rest [ none ↦ none | some bs ↦ some (b ∷ bs) ] ]

unfoldable pub list_conversations : Codec Conversation → Database → Option (List Conversation)
unfolding open_all
list_conversations codec db = open_all codec.unseal (conversation_payloads db)

unfoldable pub save_message : Codec Message → Text → Message → Database → Database
save_message codec nonce message db =
    upsert_message_row
      (record {
        id = message.envelope.id;
        conversation_id = message.envelope.conversation_id;
        server_sequence = message.envelope.server_sequence;
        payload = codec.seal nonce message;
        created_at = message.envelope.created_at;
      })
      db

unfoldable pub list_messages : Codec Message → Text → ℕ → Database → Option (List Message)
unfolding open_all
list_messages codec conversation_id limit db =
    open_all codec.unseal (message_payloads conversation_id limit db)

unfoldable pub enqueue_outbox :
    Codec SendRequest → Text → Text → Text → SendRequest → Text → Database → Database
enqueue_outbox codec nonce client_message_id conversation_id payload created_at db =
    enqueue_outbox_row client_message_id conversation_id (codec.seal nonce payload) created_at db

unfoldable pub outbox_item : Codec SendRequest → OutboxRow → Option OutboxItem
outbox_item codec row = elim (codec.unseal row.payload) [
  | none ↦ none
  | some payload ↦ some (record {
    client_message_id = row.client_message_id;
    conversation_id = row.conversation_id;
    payload = payload;
    created_at = row.created_at;
    retry_count = row.retry_count;
  })
]

unfoldable pub list_outbox : Codec SendRequest → Database → Option (List OutboxItem)
unfolding open_all outbox_item
list_outbox codec db = open_all (outbox_item codec) (outbox_rows db)
