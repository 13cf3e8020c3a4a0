-- ===== src/Messaging/Store/Upsert.antt =====
-- What a reader finds after `upsertMessage`.
use y5fgb.Messaging.Model.{LocalMessage}
use y5fgb.Messaging.Merge.{
  IsComplete, ensure_message_defaults_of_IsComplete, is_same_message, merge_message,
  ensure_message_defaults, get_message_identity_key, ensure_message_defaults-IsComplete,
  merge_message-IsComplete,
}
use y5fgb.Messaging.Dedupe.{dedupe_and_sort_messages}
use y5fgb.Messaging.Dedupe.Content.{key, merged, find-dedupe_and_sort_messages}
use y5fgb.Common.{
  find, List, inr, ◌≡◌, none, Option, sym, ◌∷◌, false, eq_text_iff, arith, any, inl, Bool-cases,
  has_key, ◌++◌, eq_text, if◌then◌else◌, refl, some, [], Text, All, IsDistinctBy, ◌∙◌, ap, true,
  update_first_of_missing, IsDistinctBy-concat, any_of_stronger, find-concat_by, any_of_find,
  All-append, update_first-IsDistinctBy_found, update_first_of_find, Option-cases, All-update_first,
  find-update_first_hit, find-update_first_other,
}
use y5fgb.Messaging.Store.Invariant.{IsTidy}
use y5fgb.Messaging.Store.{upserted}

merged_of_absent :
    (now k : Text) (old : Option LocalMessage) (items : List LocalMessage)
    → All IsComplete items
    → any (has_key key k) items ≡ false
    → merged now k old items ≡ old
unfolding merged any
merged_of_absent now k old [] c h = refl
merged_of_absent now k old (x ∷ xs) (c, cs) h =
    let miss : eq_text (key x) k ≡ false = ground arith in
    rw (ensure_message_defaults_of_IsComplete now x c)
      (rw miss (merged_of_absent now k old xs cs (ground arith)))

-- With distinct keys there is one copy of each message, and nothing is merged.
merged_of_distinct :
    (now k : Text) (items : List LocalMessage)
    → All IsComplete items
    → IsDistinctBy key items
    → merged now k none items ≡ find (has_key key k) items
unfolding merged find
merged_of_distinct now k [] c d = refl
merged_of_distinct now k (x ∷ xs) (c, cs) (e, d) =
    rw (ensure_message_defaults_of_IsComplete now x c) (elim (Bool-cases (eq_text (key x) k)) [
      | inl hit ↦ rw hit (
          merged_of_absent now k (some x) xs cs
            (ap (λ t. any (has_key key t) xs) (sym ((eq_text_iff (key x) k).0 hit)) ∙ e))
      | inr miss ↦ rw miss (merged_of_distinct now k xs cs d)
    ])

pub find-dedupe_of_distinct :
    (now k : Text) (items : List LocalMessage)
    → All IsComplete items
    → IsDistinctBy key items
    → find (has_key key k) (dedupe_and_sort_messages now items) ≡ find (has_key key k) items
find-dedupe_of_distinct now k items c d =
    find-dedupe_and_sort_messages now items k ∙ merged_of_distinct now k items c d

abbrev pub normalized : Text → LocalMessage → LocalMessage
normalized = ensure_message_defaults

module _ (now : Text) (message : LocalMessage) (items : List LocalMessage) where
  -- The stored copy that `findMessageIndex` finds for the message.
  abbrev pub stored : Option LocalMessage
  stored = find (is_same_message (normalized now message)) items

  -- What the message becomes: merged into the stored copy, if there is one.
  abbrev pub outcome : LocalMessage
  outcome = elim stored [
    | none ↦ (normalized now message)
    | some old ↦ merge_message now old (normalized now message)
  ]

module _ (now : Text) (message : LocalMessage) (items : List LocalMessage)
    (tidy : IsTidy items) where
  same_key-is_same_message :
      (x : LocalMessage)
      → has_key key (key (normalized now message)) x ≡ true
      → is_same_message (normalized now message) x ≡ true
  unfolding is_same_message
  same_key-is_same_message x h = rw h refl

  key-merge :
      (old : LocalMessage)
      → key (merge_message now old (normalized now message)) ≡ key (normalized now message)
  unfolding merge_message get_message_identity_key
  key-merge old = refl

  any-has_key_of_missing :
      stored now message items ≡ none
      → any (has_key key (key (normalized now message))) items ≡ false
  any-has_key_of_missing e =
      any_of_stronger _ _ items same_key-is_same_message (any_of_find _ items e)

  upserted_new :
      (k : Text)
      → stored now message items ≡ none
      → find (has_key key k) (upserted now message items) ≡ (
          if eq_text (key (normalized now message)) k
          then some (normalized now message)
          else find (has_key key k) items)
  unfolding upserted
  upserted_new k e =
      let absent = any-has_key_of_missing e in
      rw
        (
          update_first_of_missing (is_same_message (normalized now message))
              (λ old. merge_message now old (normalized now message)) items e,
          upserted,
        )
        (find-dedupe_of_distinct now k (items ++ (normalized now message) ∷ [])
            (All-append IsComplete items _ tidy.complete
              (ensure_message_defaults-IsComplete now message, tt))
            (IsDistinctBy-concat key (normalized now message) items absent tidy.distinct)
          ∙ find-concat_by key (normalized now message) k items absent)

  upserted_old :
      (k : Text) (old : LocalMessage)
      → stored now message items ≡ some old
      → key old ≡ key (normalized now message)
      → find (has_key key k) (upserted now message items) ≡ (
          if eq_text (key (normalized now message)) k
          then some (merge_message now old (normalized now message))
          else find (has_key key k) items)
  unfolding upserted
  upserted_old k old e own =
      let same = is_same_message (normalized now message) in
      let f = λ (x : LocalMessage). merge_message now x (normalized now message) in
      let (next, placed) = (update_first_of_find same f items old e).1 in
      let kept : key (f old) ≡ key old = key-merge old ∙ sym own in
      rw (placed, upserted)
        (find-dedupe_of_distinct now k next
            (All-update_first same f IsComplete items next placed
              (λ x _ _.
                merge_message-IsComplete now x (normalized now message)
                  (ensure_message_defaults-IsComplete now message))
              tidy.complete)
            (update_first-IsDistinctBy_found same f key items next old placed e kept tidy.distinct)
          ∙ elim (Bool-cases (eq_text (key (normalized now message)) k)) [
            | inl hit ↦ rw hit (
                let at_k = (eq_text_iff (key (normalized now message)) k).0 hit in
                find-update_first_hit same f (has_key key k) items next old placed e
                  (λ x h. same_key-is_same_message x (ap (eq_text (key x)) at_k ∙ h))
                  (ap (λ t. eq_text t k) (key-merge old) ∙ hit))
            | inr miss ↦ rw miss (
                find-update_first_other same f (has_key key k) items next old placed e
                  (ap (λ t. eq_text t k) own ∙ miss) (ap (λ t. eq_text t k) (key-merge old) ∙ miss))
          ])

key-normalized : (now : Text) (message : LocalMessage) → key (normalized now message) ≡ key message
unfolding ensure_message_defaults get_message_identity_key
key-normalized now message = refl

-- After `upsertMessage` on the tidy list of a conversation: under the message's own key stands the
-- message itself, completed by its defaults, or its merge into the copy that `findMessageIndex`
-- finds, provided that this copy has the message's key; under every other key stands what stood there.
pub find-upserted :
    (now : Text) (message : LocalMessage) (items : List LocalMessage) (k : Text)
    → IsTidy items
    → ((old : LocalMessage) → stored now message items ≡ some old → key old ≡ key message)
    → find (has_key key k) (upserted now message items) ≡ (
        if eq_text (key message) k
        then some (outcome now message items)
        else find (has_key key k) items)
find-upserted now message items k tidy own = elim (Option-cases (stored now message items)) [
  | inl e ↦
      rw (e, outcome) (rw (← key-normalized now message) (upserted_new now message items tidy k e))
  | inr (old, e) ↦
      rw (e, outcome)
        (rw (← key-normalized now message) (
          upserted_old now message items tidy k old e
            (own old e ∙ sym (key-normalized now message))))
]
