-- ===== src/Messaging/Store/Reads.antt =====
-- Read positions, removal and the stored failure of a message.
use y5fgb.Messaging.Model.{LocalMessage, Plaintext}
use y5fgb.Messaging.Merge.{is_same_client_reference, merge_message, ensure_message_defaults}
use y5fgb.Messaging.Store.{
  MessagingState, read_position, mark_conversation_read, messages_of, put_messages,
  remove_message_by_client_reference, upserted,
}
use y5fgb.Common.{
  if◌then◌else◌, Text, any, find, find-filter-not, none, arith, or_default, ◌≡◌, List, filter, Bool,
  Option, ◌≢◌, not, lookup-insert, ℕ, Number, lookup, some, any-filter-not, ◌∙◌, eq_text,
  Bool-cases, inr, inl, ◌≤◌, false, refl, true, eq_text_iff, eq_text_refl, ap, some-injective,
  has_key, sym, ◌/◌, max,
}
use y5fgb.Messaging.Store.Invariant.{IsTidy}
use y5fgb.Messaging.Store.Upsert.{stored, find-upserted, outcome}
use y5fgb.Messaging.Dedupe.Content.{key}

-- `state.readPositions[conversationId] ?? 0`
abbrev pub position_of : MessagingState → Text → ℕ
position_of s c = or_default (lookup c s.read_positions) 0

-- The position that a report stands for; a report that is no positive number stands for none.
abbrev pub reported : Option Number → ℕ
reported (some (Number.fraction false num den)) = num / den
reported _ = 0

read_position-max : (old : ℕ) (n : Option Number) → read_position old n ≡ max old (reported n)
unfolding read_position
read_position-max old none = omega arith
read_position-max old (some Number.nan) = omega arith
read_position-max old (some (Number.infinite s)) = omega arith
read_position-max old (some (Number.fraction true num den)) = refl
read_position-max old (some (Number.fraction false num den)) = refl

read_position-le : (old : ℕ) (n : Option Number) → old ≤ read_position old n
unfolding read_position
read_position-le old n = ground arith

position_of-mark :
    (s : MessagingState) (c d : Text) (n : Option Number)
    → position_of (mark_conversation_read c n s) d
      ≡ (if eq_text c d then read_position (position_of s c) n else position_of s d)
unfolding mark_conversation_read
position_of-mark s c d n =
    rw (lookup-insert c d (read_position (position_of s c) n) s.read_positions)
      (elim (Bool-cases (eq_text c d)) [ inl e ↦ rw e refl | inr e ↦ rw e refl ])

-- `markConversationRead` never moves the position of any conversation back, whatever number it is
-- given: of another conversation it keeps the position, and of its own it takes the larger of the
-- old position and the floor of a finite argument that is not negative.
pub mark_conversation_read_monotone :
    (s : MessagingState) (c d : Text) (n : Option Number)
    → (position_of s d ≤ position_of (mark_conversation_read c n s) d)
      × (position_of (mark_conversation_read c n s) d
          ≡ (if eq_text c d then max (position_of s d) (reported n) else position_of s d))
mark_conversation_read_monotone s c d n = (
  rw (position_of-mark s c d n) (elim (Bool-cases (eq_text c d)) [
    | inl e ↦ rw e (rw ((eq_text_iff c d).0 e) (read_position-le (position_of s d) n))
    | inr e ↦ rw e (omega arith)
  ]),
  position_of-mark s c d n ∙ elim (Bool-cases (eq_text c d)) [
    | inl e ↦ rw (e, (eq_text_iff c d).0 e) (read_position-max (position_of s d) n)
    | inr e ↦ rw e refl
  ],
)

read_position_comm :
    (old : ℕ) (m n : Option Number)
    → read_position (read_position old m) n ≡ read_position (read_position old n) m
unfolding read_position
read_position_comm old none n = refl
read_position_comm old (some m) none = refl
read_position_comm old (some m) (some n) = ground arith

-- The order of two reports for one conversation does not matter.
pub mark_conversation_read_comm :
    (s : MessagingState) (c d : Text) (m n : Option Number)
    → position_of (mark_conversation_read c n (mark_conversation_read c m s)) d
      ≡ position_of (mark_conversation_read c m (mark_conversation_read c n s)) d
mark_conversation_read_comm s c d m n =
    rw
      (
        position_of-mark (mark_conversation_read c m s) c d n,
        position_of-mark (mark_conversation_read c n s) c d m,
        position_of-mark s c c m,
        position_of-mark s c c n,
        position_of-mark s c d m,
        position_of-mark s c d n,
        eq_text_refl c,
      )
      (elim (Bool-cases (eq_text c d)) [
        | inl e ↦ rw e (read_position_comm (position_of s c) m n)
        | inr e ↦ rw e refl
      ])

messages_of-put :
    (s : MessagingState) (c d : Text) (items : List LocalMessage)
    → messages_of (put_messages c items s) d ≡ (if eq_text c d then items else messages_of s d)
unfolding messages_of put_messages
messages_of-put s c d items =
    rw (lookup-insert c d items s.messages_by_conversation)
      (elim (Bool-cases (eq_text c d)) [ inl e ↦ rw e refl | inr e ↦ rw e refl ])

-- After `removeMessageByClientReference` no message of the conversation has the reference; a search
-- that only messages without the reference answer finds what it found before; and every other
-- conversation keeps its messages.
pub remove_message_by_client_reference_lem :
    (s : MessagingState) (c sender client d : Text) (p : LocalMessage → Bool)
    → ((x : LocalMessage) → p x ≡ true → is_same_client_reference x sender client ≡ false)
    → c ≢ d
    → let s' = remove_message_by_client_reference c sender client s in
      (any (λ x. is_same_client_reference x sender client) (messages_of s' c) ≡ false)
      × (find p (messages_of s' c) ≡ find p (messages_of s c))
      × (messages_of s' d ≡ messages_of s d)
unfolding remove_message_by_client_reference
remove_message_by_client_reference_lem s c sender client d p only ne =
    let same = λ (item : LocalMessage). is_same_client_reference item sender client in
    let kept = filter (λ (x : LocalMessage). not (same x)) (messages_of s c) in
    let here : messages_of (put_messages c kept s) c ≡ kept =
      messages_of-put s c c kept ∙ rw (eq_text_refl c) refl in
    (
      ap (any same) here ∙ any-filter-not same (messages_of s c),
      ap (find p) here ∙ find-filter-not p same (messages_of s c) only,
      messages_of-put s c d kept ∙ elim (Bool-cases (eq_text c d)) [
        | inl e ↦ absurd (ne ((eq_text_iff c d).0 e))
        | inr e ↦ rw e refl
      ],
    )

merged_failure :
    (now : Text) (old message : LocalMessage) {text : Plaintext}
    → message.plaintext ≡ some text
    → message.decrypt_error ≡ none
    → message.failure_code ≡ none
    → let m = merge_message now old (ensure_message_defaults now message) in
      (m.plaintext ≡ some text)
      × (m.decrypt_error ≡ old.decrypt_error)
      × (m.failure_code ≡ old.failure_code)
unfolding merge_message ensure_message_defaults
merged_failure now old message e f g = ground arith

-- `upsertMessage` of a copy that was decrypted, with no error of its own, onto a stored copy of the
-- same message stores the plaintext and keeps the error and the failure code of the stored copy.
pub upserted-keeps_failure :
    (now : Text) (message old : LocalMessage) (text : Plaintext) (items : List LocalMessage)
    → IsTidy items
    → stored now message items ≡ some old
    → key old ≡ key message
    → message.plaintext ≡ some text
    → message.decrypt_error ≡ none
    → message.failure_code ≡ none
    → (m : LocalMessage) × (find (has_key key (key message)) (upserted now message items) ≡ some m)
      × (m.plaintext ≡ some text)
      × (m.decrypt_error ≡ old.decrypt_error)
      × (m.failure_code ≡ old.failure_code)
upserted-keeps_failure now message old text items tidy e own plain no_error no_code =
    let (a, b, c) = merged_failure now old message plain no_error no_code in
    (
      merge_message now old (ensure_message_defaults now message),
      find-upserted now message items (key message) tidy
            (λ x f. ap key (some-injective x old (sym f ∙ e)) ∙ own)
          ∙ rw (eq_text_refl (key message)) (rw (e, outcome) refl),
      a,
      b,
      c,
    )
