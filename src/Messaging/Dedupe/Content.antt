-- ===== src/Messaging/Dedupe/Content.antt =====
-- What the result of `dedupeAndSortMessages` holds, key by key.
use y5fgb.Common.{
  ◌≡◌, refl, none, List, [], ◌∷◌, arith, Text, Dict, lookup, insert, lookup-insert, eq_text_iff,
  find, has_key, Option-cases, inl, inr, IsDistinctBy, Option, ◌∙◌, ap, any_of_find,
  sort_by-IsDistinctBy, find-sort_by, if◌then◌else◌, eq_text, some,
}
use y5fgb.Messaging.Model.{LocalMessage}
use y5fgb.Messaging.Merge.{ensure_message_defaults, get_message_identity_key, merge_message}
use y5fgb.Messaging.Dedupe.{
  index_step, index_messages, values, dedupe_and_sort_messages, comes_after,
}

abbrev pub key : LocalMessage → Text
key = get_message_identity_key

-- Each entry stands under the key of its message, and no key stands twice.
abbrev IsIndexed : Dict LocalMessage → Type 0
IsIndexed [] = Unit
IsIndexed ((k, v) ∷ m) = (key v ≡ k) × (lookup k m ≡ none) × IsIndexed m

insert-IsIndexed :
    (k : Text) (v : LocalMessage) (m : Dict LocalMessage)
    → key v ≡ k
    → IsIndexed m
    → IsIndexed (insert k v m)
unfolding lookup insert
insert-IsIndexed k v [] e h = (e, refl, tt)
insert-IsIndexed k v ((j, w) ∷ m) e (f, missing, h) =
    ground
      (arith, insert-IsIndexed k v m e h, lookup-insert k j v m, eq_text_iff j k, eq_text_iff k j)

key-merge_message :
    (now : Text) (existing incoming : LocalMessage)
    → key (merge_message now existing incoming) ≡ key incoming
unfolding merge_message get_message_identity_key
key-merge_message now existing incoming = refl

index_step-IsIndexed :
    (now : Text) (m : Dict LocalMessage) (item : LocalMessage)
    → IsIndexed m
    → IsIndexed (index_step now m item)
unfolding index_step
index_step-IsIndexed now m item h =
    let n = ensure_message_defaults now item in
    elim (Option-cases (lookup (key n) m)) [
      | inl e ↦ rw (e, index_step) (insert-IsIndexed (key n) n m refl h)
      | inr (old, e) ↦
          rw (e, index_step)
            (insert-IsIndexed (key n) (merge_message now old n) m (key-merge_message now old n) h)
    ]

index_messages-IsIndexed :
    (now : Text) (m : Dict LocalMessage) (items : List LocalMessage)
    → IsIndexed m
    → IsIndexed (index_messages now m items)
unfolding index_messages
index_messages-IsIndexed now m [] h = h
index_messages-IsIndexed now m (item ∷ items) h =
    index_messages-IsIndexed now (index_step now m item) items (index_step-IsIndexed now m item h)

-- In an index a message is found by its key among the values.
find-values :
    (k : Text) (m : Dict LocalMessage) → IsIndexed m → find (has_key key k) (values m) ≡ lookup k m
unfolding find lookup
find-values k [] h = refl
find-values k ((j, v) ∷ m) (e, missing, h) = rw (e, find-values k m h) refl

values-IsDistinctBy : (m : Dict LocalMessage) → IsIndexed m → IsDistinctBy key (values m)
values-IsDistinctBy [] h = tt
values-IsDistinctBy ((k, v) ∷ m) (e, missing, h) =
    (rw e (any_of_find _ (values m) (find-values k m h ∙ missing)), values-IsDistinctBy m h)

-- No two messages of the result have one identity key.
pub dedupe_and_sort_messages-IsDistinctBy :
    (now : Text) (items : List LocalMessage) → IsDistinctBy key (dedupe_and_sort_messages now items)
unfolding dedupe_and_sort_messages
dedupe_and_sort_messages-IsDistinctBy now items =
    sort_by-IsDistinctBy key comes_after _
      (values-IsDistinctBy _ (index_messages-IsIndexed now [] items tt))

-- What the copies of the message with key `k` amount to: the first one with its defaults, and each
-- later one merged into what stands before it.
unfoldable pub merged : Text → Text → Option LocalMessage → List LocalMessage → Option LocalMessage
merged now k old [] = old
merged now k old (item ∷ items) =
    let n = ensure_message_defaults now item in
    merged now k
      (if eq_text (key n) k
        then some (elim old [ none ↦ n | some existing ↦ merge_message now existing n ])
        else old)
      items

lookup-index_step :
    (now k : Text) (m : Dict LocalMessage) (item : LocalMessage)
    → lookup k (index_step now m item) ≡ merged now k (lookup k m) (item ∷ [])
unfolding index_step merged
lookup-index_step now k m item =
    let n = ensure_message_defaults now item in
    elim (Option-cases (lookup (key n) m)) [
      | inl e ↦
          rw (e, index_step) (ground (arith, lookup-insert (key n) k n m, eq_text_iff (key n) k))
      | inr (old, e) ↦
          rw (e, index_step)
            (ground
              (arith, lookup-insert (key n) k (merge_message now old n) m, eq_text_iff (key n) k))
    ]

lookup-index_messages :
    (now k : Text) (m : Dict LocalMessage) (items : List LocalMessage)
    → lookup k (index_messages now m items) ≡ merged now k (lookup k m) items
unfolding index_messages merged
lookup-index_messages now k m [] = refl
lookup-index_messages now k m (item ∷ items) =
    lookup-index_messages now k (index_step now m item) items
    ∙ ap (λ o. merged now k o items) (lookup-index_step now k m item)

-- For every key, the result holds exactly what the copies with that key amount to, in input order:
-- no message is lost, none is made up, and none is taken from another key.
pub find-dedupe_and_sort_messages :
    (now : Text) (items : List LocalMessage) (k : Text)
    → find (has_key key k) (dedupe_and_sort_messages now items) ≡ merged now k none items
unfolding dedupe_and_sort_messages lookup
find-dedupe_and_sort_messages now items k =
    let m = index_messages now [] items in
    let h = index_messages-IsIndexed now [] items tt in
    find-sort_by key comes_after k (values m) (values-IsDistinctBy m h)
    ∙ (find-values k m h ∙ lookup-index_messages now k [] items)
