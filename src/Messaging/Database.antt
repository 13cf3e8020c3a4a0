-- ===== src/Messaging/Database.antt =====
-- The `messaging_store_*` commands of apps/client-desktop/src-tauri/src/main.rs: the tables that
-- services/messaging/localEncryptedStore.ts writes through. A table is its rows in the order in which
-- they were first inserted; rows that an ORDER BY does not tell apart keep that order. A command that
-- SQLite refuses is not modelled.
use y5fgb.Common.{
  lt_text, List, take, Text, ◌==◌, some, ◌&&◌, update_first, none, Bool, ◌+◌, ℕ, sort_by, eq_text,
  not, ◌++◌, if◌then◌else◌, or_default, filter, min, true, ltb, [], ◌∷◌, Option, map,
}

pub record ConversationRow : Type 0 where
  pub id : Text
  pub payload : Text
  pub updated_at : Text

pub record MessageRow : Type 0 where
  pub id : Text
  pub conversation_id : Text
  pub server_sequence : ℕ
  pub payload : Text
  pub created_at : Text

pub record OutboxRow : Type 0 where
  pub client_message_id : Text
  pub conversation_id : Text
  pub payload : Text
  pub created_at : Text
  pub retry_count : ℕ

pub record Database : Type 0 where
  pub conversations : List ConversationRow
  pub messages : List MessageRow
  pub outbox : List OutboxRow
  pub sync_cursor : Option ℕ

abbrev pub empty_database : Database
empty_database = record { conversations = []; messages = []; outbox = []; sync_cursor = none }

-- INSERT, ON CONFLICT DO UPDATE: change the row with the key, or add one.
abbrev pub upsert_row {ℓ} : {A : Type ℓ} → (A → Bool) → (A → A) → A → List A → List A
upsert_row same change row rows = or_default (update_first same change rows) (rows ++ row ∷ [])

unfoldable pub upsert_conversation_row : ConversationRow → Database → Database
upsert_conversation_row row db = record db {
  conversations =
      upsert_row (λ (r : ConversationRow). eq_text r.id row.id) (λ _. row) row db.conversations;
}

unfoldable pub upsert_message_row : MessageRow → Database → Database
upsert_message_row row db = record db {
  messages = upsert_row (λ (r : MessageRow). eq_text r.id row.id) (λ _. row) row db.messages;
}

-- The payloads, the latest first.
unfoldable pub conversation_payloads : Database → List Text
conversation_payloads db =
    map (λ r. r.payload)
      (sort_by (λ (a b : ConversationRow). lt_text a.updated_at b.updated_at) db.conversations)

abbrev is_later_row : MessageRow → MessageRow → Bool
is_later_row a b =
    if ltb a.server_sequence b.server_sequence
    then true
    else a.server_sequence == b.server_sequence && lt_text a.created_at b.created_at

unfoldable pub message_payloads : Text → ℕ → Database → List Text
message_payloads conversation_id limit db =
    map (λ r. r.payload)
      (take (if limit == 0 then 100 else min limit 500) (
        sort_by is_later_row
          (filter (λ (r : MessageRow). eq_text r.conversation_id conversation_id) db.messages)))

unfoldable pub is_outbox_row : Text → OutboxRow → Bool
is_outbox_row id row = eq_text row.client_message_id id

-- A row that is there keeps its retry count.
unfoldable pub enqueue_outbox_row : Text → Text → Text → Text → Database → Database
unfolding is_outbox_row
enqueue_outbox_row client_message_id conversation_id payload created_at db =
    let change : OutboxRow → OutboxRow = λ old. record old {
      payload = payload;
      conversation_id = conversation_id;
      created_at = created_at;
    } in
    record db {
      outbox =
          upsert_row (is_outbox_row client_message_id) change
            (record {
              client_message_id = client_message_id;
              conversation_id = conversation_id;
              payload = payload;
              created_at = created_at;
              retry_count = 0;
            })
            db.outbox;
    }

unfoldable pub delete_outbox_row : Text → Database → Database
unfolding is_outbox_row
delete_outbox_row client_message_id db = record db {
  outbox = filter (λ r. not (is_outbox_row client_message_id r)) db.outbox;
}

unfoldable pub increment_outbox_retry_row : Text → Database → Database
unfolding is_outbox_row
increment_outbox_retry_row client_message_id db = record db {
  outbox =
      map
        (λ r.
          if is_outbox_row client_message_id r
          then record r { retry_count = r.retry_count + 1 }
          else r)
        db.outbox;
}

unfoldable pub outbox_rows : Database → List OutboxRow
outbox_rows db = sort_by (λ (a b : OutboxRow). lt_text b.created_at a.created_at) db.outbox

unfoldable pub read_sync_cursor : Database → ℕ
read_sync_cursor db = or_default db.sync_cursor 0

-- The cursor never goes back.
unfoldable pub write_sync_cursor : ℕ → Database → Database
write_sync_cursor cursor db = record db {
  sync_cursor = elim db.sync_cursor [
    | none ↦ some cursor
    | some old ↦ some (if ltb old cursor then cursor else old)
  ];
}
