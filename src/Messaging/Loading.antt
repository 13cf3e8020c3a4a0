-- ===== src/Messaging/Loading.antt =====
-- What the runtime of apps/client-desktop/src/services/messaging/runtime.ts loads: conversations,
-- messages and attachments, from the local store and from the relay server. There is an access token.
use y5fgb.Messaging.Store
use y5fgb.Messaging.Flush.{Client, Round, finished, thrown, Environment}
use y5fgb.Messaging.Store.{TransportPatch}
use y5fgb.Common.{
  none, ◌∷◌, Text, if◌then◌else◌, ◌||◌, [], some, ℕ, integer, is_empty, Option, List, eq_text, map,
}
use y5fgb.Messaging.Errors.{Thrown}
use y5fgb.Messaging.Crypto.{Sodium, Bytes, decrypt_attachment, hash_bytes}
use y5fgb.Messaging.LocalStore.{
  Codec, list_messages, list_conversations, save_conversation, save_message, list_outbox,
}
use y5fgb.Messaging.Model.{Conversation, Message}
use y5fgb.Messaging.Database.{Database, read_sync_cursor}

-- The server's answer to a request.
pub data Fetched {ℓ} (A : Type ℓ) : Type ℓ where
  fetched : A → Fetched A
  refused_fetch : Thrown → Fetched A

-- `saveConversation` for each.
unfoldable pub save_conversations :
    Codec Conversation → Text → List Conversation → Database → Database
save_conversations codec nonce [] db = db
save_conversations codec nonce (c ∷ cs) db =
    save_conversations codec nonce cs (save_conversation codec nonce c db)

-- `refreshConversations`
unfoldable pub refresh_conversations :
    Codec Conversation → Text → Fetched (List Conversation) → Client → Round
unfolding save_conversations
refresh_conversations codec nonce response client = elim response [
  | refused_fetch error ↦ thrown client
  | fetched conversations ↦ finished (record {
    database = save_conversations codec nonce conversations client.database;
    messaging = Store.set_conversations conversations client.messaging;
    sent = client.sent;
  })
]

-- `createDirect` and `createGroup`, which end in `persistConversation`.
unfoldable pub create_conversation :
    Codec Conversation → Text → Fetched Conversation → Client → Round
create_conversation codec nonce response client = elim response [
  | refused_fetch error ↦ thrown client
  | fetched conversation ↦ finished (record {
    database = save_conversation codec nonce conversation client.database;
    messaging = Store.upsert_conversation conversation client.messaging;
    sent = client.sent;
  })
]

abbrev hydrated_cursor : ℕ → TransportPatch
hydrated_cursor cursor = record {
  mode = none;
  status = none;
  endpoint = none;
  last_error = none;
  last_cursor = some (integer cursor);
}

-- `hydrateFromLocalStore`: it throws where some payload does not open.
unfoldable pub hydrate_from_local_store : Codec Conversation → Environment → Client → Round
hydrate_from_local_store codec env client =
    let db = client.database in
    elim (list_conversations codec db) [
      | none ↦ thrown client
      | some conversations ↦ elim (list_outbox env.requests db) [
        | none ↦ thrown client
        | some outbox ↦ finished (record client {
          messaging =
              Store.set_transport_state env.now (hydrated_cursor (read_sync_cursor db))
                (Store.set_outbox outbox (Store.set_conversations conversations client.messaging));
        })
      ]
    ]

-- `saveMessage` for each.
unfoldable pub save_messages : Codec Message → Text → List Message → Database → Database
save_messages codec nonce [] db = db
save_messages codec nonce (m ∷ ms) db = save_messages codec nonce ms (save_message codec nonce m db)

-- `loadMessages`: first what is stored, then what the server has.
unfoldable pub load_messages : Environment → Text → Fetched (List Message) → Client → Round
unfolding save_messages
load_messages env conversation_id response client =
    let opened = record client {
      messaging = Store.set_active_conversation (some conversation_id) client.messaging;
    } in
    elim (list_messages env.messages conversation_id 200 client.database) [
      | none ↦ thrown opened
      | some cached ↦
          let shown = elim cached as (λ _. Client) [
            | [] ↦ opened
            | m ∷ ms ↦ record opened {
              messaging =
                  Store.set_messages env.now conversation_id (map env.hydrate (m ∷ ms))
                    opened.messaging;
            }
          ] in
          elim response [
            | refused_fetch error ↦ thrown shown
            | fetched messages ↦ finished (record {
              database = save_messages env.messages env.nonce messages shown.database;
              messaging =
                  Store.set_messages env.now conversation_id (map env.hydrate messages)
                    shown.messaging;
              sent = shown.sent;
            })
          ]
    ]

-- `downloadAttachment` of an attachment that came with its ciphertext: `none` where it throws. `atob` is
-- the decoding of the browser, `lower` is `toLowerCase`.
unfoldable pub download_attachment :
    Sodium
    → (atob : Text → Bytes) → (lower : Text → Text) → (checksum : Option Text)
    → (ciphertext nonce symmetric_key : Text) → Option Bytes
download_attachment sodium atob lower checksum ciphertext nonce symmetric_key =
    let opened = decrypt_attachment sodium ciphertext nonce symmetric_key in
    elim checksum [
      | none ↦ opened
      | some expected ↦
          if is_empty expected
            || eq_text (lower (sodium.to_hex (hash_bytes sodium (atob ciphertext))))
                (lower expected)
          then opened
          else none
    ]
