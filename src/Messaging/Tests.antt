-- ===== src/Messaging/Tests.antt =====
-- Runs of the messaging store on small inputs, and instances of its theorems.
use y5fgb.Messaging.Store
use y5fgb.Messaging.Model.{
  Lifecycle, DeliveryState, Envelope, LocalMessage, Plaintext, Conversation, ConversationType,
}
use y5fgb.Messaging.Lifecycle.{lifecycle_from_delivery_state}
use y5fgb.Messaging.Merge.{
  is_same_client_reference, is_same_message, ensure_message_defaults, merge_message,
  get_message_identity_key,
}
use y5fgb.Messaging.Dedupe.{dedupe_and_sort_messages}
use y5fgb.Messaging.Dedupe.Content.{key, merged, find-dedupe_and_sort_messages}
use y5fgb.Messaging.Dedupe.Idempotent.{dedupe_and_sort_messages_idempotent}
use y5fgb.Messaging.Store.{
  MessagingState, upserted, initial_state, messages_of, mark_conversation_read, read_position,
}
use y5fgb.Messaging.Store.Actions.{Action, run}
use y5fgb.Messaging.Store.Invariant.{IsValid, dedupe_and_sort_messages-IsTidy}
use y5fgb.Messaging.Store.Reachable.{run-IsValid}
use y5fgb.Messaging.Store.Upsert.{stored, outcome, find-upserted}
use y5fgb.Messaging.Store.Reads.{
  position_of, mark_conversation_read_monotone, mark_conversation_read_comm,
  remove_message_by_client_reference_lem, upserted-keeps_failure, reported,
}
use y5fgb.Common.{
  none, ℕ, codes, [], Text, false, some, insert, lookup, length, integer, ◌≤◌, ◌≡◌, refl, ◌∙◌,
  is_empty, sort_by, update_first, eq_text, if◌then◌else◌, Bool, List, ◌∷◌, any, arith, Option,
  some-injective, Number, lt_text, true, has_key, sym, ap, find, eq_text_iff, map, max,
}
use Prim.Native.String.{String}

abbrev envelope : String → String → ℕ → Envelope
envelope id client sequence = record {
  id = codes id;
  conversation_id = codes "c1";
  sender_account_id = codes "a1";
  sender_device_id = codes "d1";
  client_message_id = codes client;
  algorithm = codes "x";
  crypto_version = 1;
  nonce = [];
  ciphertext = [];
  recipients = [];
  attachments = [];
  reply_to_message_id = none;
  ttl_seconds = none;
  created_at = codes "2024-01-01";
  expires_at = none;
  server_sequence = sequence;
}

abbrev local : String → String → ℕ → LocalMessage
local id client sequence = record {
  base = record {
    envelope = envelope id client sequence;
    delivery_state = DeliveryState.sent;
    delivered_at = none;
    failed_reason = none;
    receipts = [];
  };
  plaintext = none;
  decrypt_error = none;
  is_expired = none;
  lifecycle = none;
  retryable_failure = none;
  failure_code = none;
  last_updated_at = none;
}

-- An optimistic message, one of the server, and the server's copy of the first.
abbrev optimistic : LocalMessage
optimistic = local "local-m1" "m1" 0

abbrev fetched : LocalMessage
fetched = local "s2" "m2" 2

abbrev confirmed : LocalMessage
confirmed = local "s1" "m1" 1

abbrev now : Text
now = codes "2024-01-02"

abbrev items : List LocalMessage
items = dedupe_and_sort_messages now (fetched ∷ optimistic ∷ [])

store : Unit {0}
unfolding dedupe_and_sort_messages insert lookup eq_text get_message_identity_key is_empty
    ensure_message_defaults lifecycle_from_delivery_state merge_message sort_by lt_text find
    is_same_message upserted update_first any
store = tt

-- The server's copy takes the place of the optimistic one, and moves to its sequence number.
confirmed_runs :
    map (λ m. m.envelope.id) (upserted now confirmed items) ≡ codes "s1" ∷ codes "s2" ∷ []
unfolding store
confirmed_runs = refl

length-items : length items ≡ 2
unfolding store
length-items = refl

find-dedupe_and_sort_messages_example :
    find (has_key key (key confirmed)) items
    ≡ merged now (key confirmed) none (fetched ∷ optimistic ∷ [])
find-dedupe_and_sort_messages_example =
    find-dedupe_and_sort_messages now (fetched ∷ optimistic ∷ []) (key confirmed)

dedupe_and_sort_messages_idempotent_example :
    dedupe_and_sort_messages (codes "2024-02-01") items ≡ items
dedupe_and_sort_messages_idempotent_example =
    dedupe_and_sort_messages_idempotent now (codes "2024-02-01") (fetched ∷ optimistic ∷ [])

abbrev stored_optimistic : LocalMessage
stored_optimistic = record optimistic {
  lifecycle = some Lifecycle.sent;
  last_updated_at = some now;
}

stored-confirmed : stored now confirmed items ≡ some stored_optimistic
unfolding store
stored-confirmed = refl

key-confirmed : key stored_optimistic ≡ key confirmed
unfolding store
key-confirmed = refl

own_key : (old : LocalMessage) → stored now confirmed items ≡ some old → key old ≡ key confirmed
own_key old e =
    ap key (some-injective old stored_optimistic (sym e ∙ stored-confirmed)) ∙ key-confirmed

find-upserted_example : find (has_key key (key confirmed)) (upserted now confirmed items) ≡ (
    if eq_text (key confirmed) (key confirmed)
    then some (outcome now confirmed items)
    else find (has_key key (key confirmed)) items)
find-upserted_example =
    find-upserted now confirmed items (key confirmed)
      (dedupe_and_sort_messages-IsTidy now (fetched ∷ optimistic ∷ [])) own_key

abbrev conversation : String → Conversation
conversation id = record {
  id = codes id;
  type = ConversationType.direct;
  title = none;
  created_by_account_id = codes "a1";
  created_at = [];
  updated_at = [];
  default_ttl_seconds = 0;
  allow_per_message_override = true;
  members = [];
  last_server_sequence = 0;
}

abbrev actions : List Action
actions =
    Action.set_conversations (conversation "c1" ∷ conversation "c2" ∷ [])
    ∷ Action.upsert_message now (codes "c1") optimistic
    ∷ Action.upsert_conversation (conversation "c2")
    ∷ Action.upsert_message now (codes "c1") confirmed
    ∷ []

run-IsValid_example : IsValid (run actions initial_state)
unfolding store
run-IsValid_example = run-IsValid actions ((refl, (refl, tt)), (tt, (tt, (tt, tt))))

abbrev read_to : ℕ → Option Number
read_to n = some (integer n)

mark_conversation_read_monotone_example :
    (position_of initial_state (codes "c1")
      ≤ position_of (mark_conversation_read (codes "c1") (read_to 7) initial_state) (codes "c1"))
    × (position_of (mark_conversation_read (codes "c1") (read_to 7) initial_state) (codes "c1") ≡ (
        if eq_text (codes "c1") (codes "c1")
        then max (position_of initial_state (codes "c1")) (reported (read_to 7))
        else position_of initial_state (codes "c1")))
mark_conversation_read_monotone_example =
    mark_conversation_read_monotone initial_state (codes "c1") (codes "c1") (read_to 7)

mark_conversation_read_comm_example :
    position_of
      (mark_conversation_read
        (codes "c1")
        (read_to 3)
        (mark_conversation_read (codes "c1") (read_to 7) initial_state))
      (codes "c1")
    ≡ position_of
        (mark_conversation_read
          (codes "c1")
          (read_to 7)
          (mark_conversation_read (codes "c1") (read_to 3) initial_state))
        (codes "c1")
mark_conversation_read_comm_example =
    mark_conversation_read_comm initial_state (codes "c1") (codes "c1") (read_to 7) (read_to 3)

abbrev filled : MessagingState
filled = record initial_state {
  messages_by_conversation = (codes "c1", optimistic ∷ fetched ∷ []) ∷ [];
}

is_s2 : LocalMessage → Bool
is_s2 m = eq_text m.envelope.client_message_id (codes "m2")

only_other :
    (x : LocalMessage)
    → is_s2 x ≡ true
    → is_same_client_reference x (codes "d1") (codes "m1") ≡ false
unfolding is_s2 is_same_client_reference
only_other x h = ground (
  arith,
  eq_text_iff x.envelope.client_message_id (codes "m2"),
  eq_text_iff x.envelope.client_message_id (codes "m1"),
)

remove_message_by_client_reference_lem_example :
    let s' =
      Store.remove_message_by_client_reference (codes "c1") (codes "d1") (codes "m1") filled in
    (any (λ x. is_same_client_reference x (codes "d1") (codes "m1")) (messages_of s' (codes "c1"))
      ≡ false)
    × (find is_s2 (messages_of s' (codes "c1")) ≡ find is_s2 (messages_of filled (codes "c1")))
    × (messages_of s' (codes "c2") ≡ messages_of filled (codes "c2"))
remove_message_by_client_reference_lem_example =
    remove_message_by_client_reference_lem filled (codes "c1") (codes "d1") (codes "m1")
      (codes "c2") is_s2 only_other (ground arith)

abbrev text : Plaintext
text = record { text = codes "hi"; attachments = []; created_at = none }

abbrev failed_copy : LocalMessage
failed_copy = record confirmed {
  lifecycle = some Lifecycle.failed;
  decrypt_error = some (codes "no key");
  failure_code = some (codes "message_decrypt_failed");
  last_updated_at = some now;
}

abbrev decrypted_copy : LocalMessage
decrypted_copy = record confirmed { plaintext = some text }

abbrev failed_items : List LocalMessage
failed_items = dedupe_and_sort_messages now (failed_copy ∷ [])

failed_stored : stored now decrypted_copy failed_items ≡ some failed_copy
unfolding store
failed_stored = refl

decrypted_key : key failed_copy ≡ key decrypted_copy
unfolding store
decrypted_key = refl

upserted-keeps_failure_example :
    (m : LocalMessage) × (find
        (has_key key (key decrypted_copy))
        (upserted now decrypted_copy failed_items)
      ≡ some m)
    × (m.plaintext ≡ some text)
    × (m.decrypt_error ≡ some (codes "no key"))
    × (m.failure_code ≡ some (codes "message_decrypt_failed"))
upserted-keeps_failure_example =
    upserted-keeps_failure now decrypted_copy failed_copy text failed_items
      (dedupe_and_sort_messages-IsTidy now (failed_copy ∷ [])) failed_stored decrypted_key refl refl
      refl
