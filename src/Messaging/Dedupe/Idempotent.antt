-- ===== src/Messaging/Dedupe/Idempotent.antt =====
-- `dedupeAndSortMessages` on a list that is in order already.
use y5fgb.Messaging.Model.{LocalMessage}
use y5fgb.Messaging.Merge.{
  IsComplete, ensure_message_defaults, merge_message, ensure_message_defaults-IsComplete,
  merge_message-IsComplete, ensure_message_defaults_of_IsComplete,
}
use y5fgb.Messaging.Dedupe.{
  index_step, index_messages, values, comes_after, dedupe_and_sort_messages,
}
use y5fgb.Messaging.Dedupe.Content.{key, dedupe_and_sort_messages-IsDistinctBy}
use y5fgb.Messaging.Dedupe.Order.{dedupe_and_sort_messages-IsSortedBy}
use y5fgb.Common.{
  insert, Text, any, Dict, List, All, lookup, IsDistinctBy, has_key, ◌∷◌, ◌≡◌, All-sort_by,
  Option-cases, arith, ◌++◌, [], none, false, inl, map, lookup-insert, sym, eq_text_iff, inr, refl,
  ◌∙◌, sort_by_of_IsSortedBy, IsSortedBy, append-nil, append_assoc, sort_by, ap,
}

-- Each value of the index is complete.
insert-IsComplete :
    (k : Text) (v : LocalMessage) (m : Dict LocalMessage)
    → IsComplete v
    → All IsComplete (values m)
    → All IsComplete (values (insert k v m))
unfolding insert
insert-IsComplete k v [] c h = (c, tt)
insert-IsComplete k v ((j, w) ∷ m) c (d, h) = ground (arith, insert-IsComplete k v m c h)

index_step-IsComplete :
    (now : Text) (m : Dict LocalMessage) (item : LocalMessage)
    → All IsComplete (values m)
    → All IsComplete (values (index_step now m item))
unfolding index_step
index_step-IsComplete now m item h =
    let n = ensure_message_defaults now item in
    let c = ensure_message_defaults-IsComplete now item in
    elim (Option-cases (lookup (key n) m)) [
      | inl e ↦ rw (e, index_step) (insert-IsComplete (key n) n m c h)
      | inr (old, e) ↦
          rw (e, index_step)
            (insert-IsComplete (key n) (merge_message now old n) m
              (merge_message-IsComplete now old n c) h)
    ]

index_messages-IsComplete :
    (now : Text) (m : Dict LocalMessage) (items : List LocalMessage)
    → All IsComplete (values m)
    → All IsComplete (values (index_messages now m items))
unfolding index_messages
index_messages-IsComplete now m [] h = h
index_messages-IsComplete now m (item ∷ items) h =
    index_messages-IsComplete now (index_step now m item) items (index_step-IsComplete now m item h)

-- Every message of the result has a lifecycle and a time.
pub dedupe_and_sort_messages-IsComplete :
    (now : Text) (items : List LocalMessage) → All IsComplete (dedupe_and_sort_messages now items)
unfolding dedupe_and_sort_messages
dedupe_and_sort_messages-IsComplete now items =
    All-sort_by comes_after IsComplete _ (index_messages-IsComplete now [] items tt)

-- A new key goes to the end of the index.
insert_absent :
    (k : Text) (v : LocalMessage) (m : Dict LocalMessage)
    → lookup k m ≡ none
    → insert k v m ≡ m ++ (k, v) ∷ []
unfolding insert lookup
insert_absent k v [] h = refl
insert_absent k v ((j, w) ∷ m) h = ground (arith, insert_absent k v m)

abbrev entry : LocalMessage → Text × LocalMessage
entry m = (key m, m)

abbrev AreNew : Dict LocalMessage → List LocalMessage → Type 0
AreNew m items = All (λ x. lookup (key x) m ≡ none) items

AreNew-concat :
    (v : LocalMessage) (m : Dict LocalMessage) (items : List LocalMessage)
    → any (has_key key (key v)) items ≡ false
    → AreNew m items
    → AreNew (insert (key v) v m) items
unfolding any
AreNew-concat v m [] d h = tt
AreNew-concat v m (x ∷ xs) d (e, h) = (
  ground (
    arith,
    lookup-insert (key v) (key x) v m,
    eq_text_iff (key x) (key v),
    eq_text_iff (key v) (key x),
  ),
  AreNew-concat v m xs (ground arith) h,
)

index_step_of_new :
    (now : Text) (m : Dict LocalMessage) (x : LocalMessage)
    → IsComplete x
    → lookup (key x) m ≡ none
    → index_step now m x ≡ insert (key x) x m
unfolding index_step
index_step_of_new now m x c f =
    let e = ensure_message_defaults_of_IsComplete now x c in
    rw (e, index_step) (rw (f, index_step) (rw e refl))

index_messages_of_new :
    (now : Text) (m : Dict LocalMessage) (items : List LocalMessage)
    → IsDistinctBy key items
    → All IsComplete items
    → AreNew m items
    → index_messages now m items ≡ m ++ map entry items
unfolding index_messages
index_messages_of_new now m [] d c h = sym (append-nil m)
index_messages_of_new now m (x ∷ xs) (e, d) (c, cs) (f, h) = rw (index_step_of_new now m x c f) (
    index_messages_of_new now (insert (key x) x m) xs d cs (AreNew-concat x m xs e h)
    ∙ rw (insert_absent (key x) x m f) (append_assoc m (entry x ∷ []) (map entry xs)))

values-entry : (items : List LocalMessage) → values (map entry items) ≡ items
values-entry [] = refl
values-entry (x ∷ xs) = ap (◌∷◌ x) (values-entry xs)

-- A list with distinct keys, complete and in order, comes back as it is.
pub dedupe_and_sort_messages_of_tidy :
    (now : Text) (items : List LocalMessage)
    → IsSortedBy comes_after items
    → IsDistinctBy key items
    → All IsComplete items
    → dedupe_and_sort_messages now items ≡ items
unfolding dedupe_and_sort_messages lookup
dedupe_and_sort_messages_of_tidy now items s d c =
    ap (λ m. sort_by comes_after (values m))
      (index_messages_of_new now [] items d c (all_new items))
    ∙ (ap (sort_by comes_after) (values-entry items) ∙ sort_by_of_IsSortedBy comes_after items s)
  where
    all_new : (xs : List LocalMessage) → AreNew [] xs
    all_new = elim [ [] ↦ tt | x ∷ (xs → ih) ↦ (refl, ih) ]

-- Deduplicating and sorting a second time, at whatever time, changes nothing.
pub dedupe_and_sort_messages_idempotent :
    (now later : Text) (items : List LocalMessage)
    → dedupe_and_sort_messages later (dedupe_and_sort_messages now items)
      ≡ dedupe_and_sort_messages now items
dedupe_and_sort_messages_idempotent now later items =
    dedupe_and_sort_messages_of_tidy later _ (dedupe_and_sort_messages-IsSortedBy now items)
      (dedupe_and_sort_messages-IsDistinctBy now items)
      (dedupe_and_sort_messages-IsComplete now items)
