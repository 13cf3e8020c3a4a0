-- ===== src/Messaging/Flush/Outbox.antt =====
-- What a round leaves in the outbox.
use y5fgb.Messaging.Flush.{
  accepted, rejected, Environment, OutboxItem, flush_item, is_retryable, Client, Reply, flush_items,
  Message, Codec, flush_round, refresh_outbox, Round, finished, thrown,
}
use y5fgb.Common.{
  Option, not, map, some, ◌+◌, eq_text, Bool, arith, eq_text_iff, List, find, Text, if◌then◌else◌,
  false, ◌≡◌, none, [], filter, ◌∷◌, inr, inl, Bool-cases, refl, ◌⊎◌, drop, IsDistinctBy, any,
  find_of_any, ◌∙◌, subst, ap, some-injective, option_cases, sym, sort_by-IsDistinctBy, sort_by,
  lt_text, append-nil, append_assoc, ◌++◌,
}
use y5fgb.Messaging.Database.{
  OutboxRow, is_outbox_row, delete_outbox_row, increment_outbox_retry_row, upsert_message_row,
  Database, outbox_rows,
}
use y5fgb.Messaging.Errors.{classify_messaging_error, Thrown}
use y5fgb.Messaging.LocalStore.{save_message, outbox_item, list_outbox}
use y5fgb.Messaging.Model.{SendRequest}
use y5fgb.Messaging.LocalStore.Opening.{open_all-IsDistinctBy}

-- An item whose sending failed for now stays, and has been tried once more.
unfoldable pub is_kept : Environment → OutboxItem → Bool
is_kept env item = elim (env.reply item) [
  | accepted message ↦ false
  | rejected error ↦ is_retryable (classify_messaging_error env.translate error).class
]

unfoldable pub retried : Option OutboxRow → Option OutboxRow
retried none = none
retried (some row) = some (record row { retry_count = row.retry_count + 1 })

-- The row with id `k` after the items: `found` before them.
unfoldable pub settled : Environment → Text → List OutboxItem → Option OutboxRow → Option OutboxRow
unfolding is_kept retried
settled env k items found = elim (find (λ (i : OutboxItem). eq_text i.client_message_id k) items) [
  | none ↦ found
  | some item ↦ if is_kept env item then retried found else none
]

find-delete :
    (j k : Text) (rows : List OutboxRow)
    → find (is_outbox_row k) (filter (λ r. not (is_outbox_row j r)) rows)
      ≡ (if eq_text j k then none else find (is_outbox_row k) rows)
unfolding find filter is_outbox_row
find-delete j k [] = ground arith
find-delete j k (r ∷ rows) = ground (
  arith,
  find-delete j k rows,
  eq_text_iff j k,
  eq_text_iff r.client_message_id j,
  eq_text_iff r.client_message_id k,
)

find-increment :
    (j k : Text) (rows : List OutboxRow)
    → find (is_outbox_row k) (
        map
          (λ r. if is_outbox_row j r then record r { retry_count = r.retry_count + 1 } else r)
          rows)
      ≡ (if eq_text j k then retried (find (is_outbox_row k) rows) else find (is_outbox_row k) rows)
unfolding find is_outbox_row retried
find-increment j k [] = ground arith
find-increment j k (r ∷ rows) = ground (
  arith,
  find-increment j k rows,
  eq_text_iff j k,
  eq_text_iff r.client_message_id j,
  eq_text_iff r.client_message_id k,
)

Reply-cases : (r : Reply) → ((m : Message) × (r ≡ accepted m)) ⊎ ((e : Thrown) × (r ≡ rejected e))
Reply-cases (accepted m) = inl (m, refl)
Reply-cases (rejected e) = inr (e, refl)

module _ (env : Environment) (k : Text) where
  find-flush_item :
      (item : OutboxItem) (client : Client)
      → find (is_outbox_row k) (flush_item env item client).database.outbox ≡ (
          if eq_text item.client_message_id k
          then (if is_kept env item
              then retried (find (is_outbox_row k) client.database.outbox)
              else none)
          else find (is_outbox_row k) client.database.outbox)
  unfolding flush_item is_kept delete_outbox_row increment_outbox_retry_row save_message
      upsert_message_row
  find-flush_item item client =
      let id = item.client_message_id in
      elim (Reply-cases (env.reply item)) [
        | inl (m, e) ↦ rw (e, flush_item, is_kept) (find-delete id k client.database.outbox)
        | inr (error, e) ↦
            elim (Bool-cases (is_retryable (classify_messaging_error env.translate error).class)) [
              | inl keep ↦
                  rw (e, flush_item, is_kept) (rw keep (find-increment id k client.database.outbox))
              | inr drop ↦
                  rw (e, flush_item, is_kept) (rw drop (find-delete id k client.database.outbox))
            ]
      ]

  find-flush_items :
      (items : List OutboxItem) (client : Client)
      → IsDistinctBy (λ (i : OutboxItem). i.client_message_id) items
      → find (is_outbox_row k) (flush_items env items client).database.outbox
        ≡ settled env k items (find (is_outbox_row k) client.database.outbox)
  unfolding flush_items settled find
  find-flush_items [] client d = refl
  find-flush_items (item ∷ items) client (new, d) =
      let rest = find-flush_items items (flush_item env item client) d in
      elim (Bool-cases (eq_text item.client_message_id k)) [
        | inl own ↦
            let same : item.client_message_id ≡ k = (eq_text_iff item.client_message_id k).0 own in
            let others : find (λ (i : OutboxItem). eq_text i.client_message_id k) items ≡ none =
              find_of_any _ items (
                subst (λ j. any (λ (i : OutboxItem). eq_text i.client_message_id j) items ≡ false)
                  same new) in
            rest ∙ rw (settled, others, find-flush_item item client, own) refl
        | inr other ↦
            let same : find (is_outbox_row k) (flush_item env item client).database.outbox
                ≡ find (is_outbox_row k) client.database.outbox =
              find-flush_item item client ∙ rw other refl in
            rest ∙ ap (settled env k items) same ∙ rw (settled, other) refl
      ]

-- The id of an opened item is that of its row.
pub outbox_item-id :
    (codec : Codec SendRequest) (row : OutboxRow) (item : OutboxItem)
    → outbox_item codec row ≡ some item
    → item.client_message_id ≡ row.client_message_id
unfolding outbox_item
outbox_item-id codec row item =
    option_cases
      (λ (o : Option OutboxItem). o ≡ some item → item.client_message_id ≡ row.client_message_id)
      (codec.unseal row.payload) (λ _ e. absurd (ground arith))
      (λ payload _ e. ap (λ (i : OutboxItem). i.client_message_id) (sym (some-injective _ item e)))

-- Each item is sent, in the order of the list.
flush_item-sent :
    (env : Environment) (item : OutboxItem) (client : Client)
    → (flush_item env item client).sent ≡ client.sent ++ item ∷ []
unfolding flush_item
flush_item-sent env item client = elim (Reply-cases (env.reply item)) [
  | inl (m, e) ↦ rw (flush_item, e) refl
  | inr (error, e) ↦ rw (flush_item, e) refl
]

flush_items-sent :
    (env : Environment) (items : List OutboxItem) (client : Client)
    → (flush_items env items client).sent ≡ client.sent ++ items
unfolding flush_items
flush_items-sent env [] client = sym (append-nil client.sent)
flush_items-sent env (item ∷ items) client =
    flush_items-sent env items (flush_item env item client)
    ∙ ap (λ sent. sent ++ items) (flush_item-sent env item client)
    ∙ append_assoc client.sent (item ∷ []) items

-- The client after a round, whether it threw or not.
unfoldable pub client_of : Round → Client
client_of (finished client) = client
client_of (thrown client) = client

client_of-refresh_outbox :
    (env : Environment) (client : Client)
    → (client_of (refresh_outbox env client)).database ≡ client.database
unfolding refresh_outbox client_of
client_of-refresh_outbox env client =
    option_cases (λ r. (client_of r).database ≡ client.database)
      (list_outbox env.requests client.database) (λ _. refl) (λ _ _. refl)

client_of-refresh_outbox-sent :
    (env : Environment) (client : Client)
    → (client_of (refresh_outbox env client)).sent ≡ client.sent
unfolding refresh_outbox client_of
client_of-refresh_outbox-sent env client =
    option_cases (λ r. (client_of r).sent ≡ client.sent) (list_outbox env.requests client.database)
      (λ _. refl) (λ _ _. refl)

-- The ids of an outbox that was read are distinct.
list_outbox-IsDistinctBy :
    (codec : Codec SendRequest) (db : Database) (items : List OutboxItem)
    → list_outbox codec db ≡ some items
    → IsDistinctBy (λ (r : OutboxRow). r.client_message_id) db.outbox
    → IsDistinctBy (λ (i : OutboxItem). i.client_message_id) items
unfolding list_outbox outbox_rows
list_outbox-IsDistinctBy codec db items e d =
    let order = λ (a b : OutboxRow). lt_text b.created_at a.created_at in
    open_all-IsDistinctBy (outbox_item codec) (λ r. r.client_message_id) (λ i. i.client_message_id)
      (outbox_item-id codec) (sort_by order db.outbox) items e
      (sort_by-IsDistinctBy (λ (r : OutboxRow). r.client_message_id) order db.outbox d)

-- A round of `flushOutbox` sends the items of the outbox to the server, each of them once, in order, and
-- nothing else. A row whose item the server accepts, or
-- refuses for good, is gone; a row whose item is refused for now stays, with one more retry. No row is
-- added, provided that there is an access token, that the ids of the rows are distinct, and that every
-- payload opens.
pub flush_round-settled :
    (env : Environment) (client : Client) (token : Text) (items : List OutboxItem) (k : Text)
    → env.access_token ≡ some token
    → list_outbox env.requests client.database ≡ some items
    → IsDistinctBy (λ (r : OutboxRow). r.client_message_id) client.database.outbox
    → let after = client_of (flush_round env client) in
      (after.sent ≡ client.sent ++ items)
      × (find (is_outbox_row k) after.database.outbox
          ≡ settled env k items (find (is_outbox_row k) client.database.outbox))
unfolding flush_round client_of settled find
flush_round-settled env client token [] k signed_in read d =
    rw (flush_round, signed_in, read) (sym (append-nil client.sent), refl)
flush_round-settled env client token (item ∷ items) k signed_in read d =
    rw (flush_round, signed_in, read)
      (
        client_of-refresh_outbox-sent env (flush_items env (item ∷ items) client)
            ∙ flush_items-sent env (item ∷ items) client,
        ap (λ (db : Database). find (is_outbox_row k) db.outbox)
              (client_of-refresh_outbox env (flush_items env (item ∷ items) client))
            ∙ find-flush_items env k (item ∷ items) client
                (list_outbox-IsDistinctBy env.requests client.database (item ∷ items) read d),
      )
