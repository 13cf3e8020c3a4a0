-- ===== src/Messaging/Dedupe/Order.antt =====
-- The comparator of `dedupeAndSortMessages` is a total preorder, so sorting sorts.
use y5fgb.Common.{
  ◌≡◌, ◌∙◌, sym, Bool, true, false, not, List, arith, eq_of_lt_text, lt_text_asym, le_text_trans,
  IsSortedBy, sort_by-IsSortedBy, ltb, lt_text, ◌||◌, ◌&&◌, ◌==◌, Text, ℕ,
}
use y5fgb.Messaging.Model.{LocalMessage}
use y5fgb.Messaging.Dedupe.{comes_after, dedupe_and_sort_messages}

-- The comparator by the three fields that it reads.
fields_after : (s : ℕ) (c i : Text) (s' : ℕ) (c' i' : Text) → Bool
fields_after s c i s' c' i' =
    ltb s' s || (s == s' && (lt_text c' c || (not (lt_text c c') && lt_text i' i)))

fields_after_asym :
    (s : ℕ) (c i : Text) (s' : ℕ) (c' i' : Text)
    → fields_after s c i s' c' i' ≡ true
    → fields_after s' c' i' s c i ≡ false
unfolding fields_after
fields_after_asym s c i s' c' i' h = ground (arith, lt_text_asym c' c, lt_text_asym i' i)

fields_after_trans :
    (s : ℕ) (c i : Text) (s' : ℕ) (c' i' : Text) (s'' : ℕ) (c'' i'' : Text)
    → fields_after s c i s' c' i' ≡ false
    → fields_after s' c' i' s'' c'' i'' ≡ false
    → fields_after s c i s'' c'' i'' ≡ false
unfolding fields_after
fields_after_trans s c i s' c' i' s'' c'' i'' h k = ground (
  arith,
  le_text_trans c c' c'',
  le_text_trans i i' i'',
  eq_of_lt_text c c',
  eq_of_lt_text c' c'',
  eq_of_lt_text c c'',
)

comes_after-eq :
    (x y : LocalMessage)
    → comes_after x y
      ≡ fields_after x.envelope.server_sequence x.envelope.created_at x.envelope.id
          y.envelope.server_sequence y.envelope.created_at y.envelope.id
unfolding comes_after fields_after
comes_after-eq x y = ground (
  arith,
  lt_text_asym x.envelope.created_at y.envelope.created_at,
  lt_text_asym x.envelope.id y.envelope.id,
)

comes_after_asym : (x y : LocalMessage) → comes_after x y ≡ true → comes_after y x ≡ false
comes_after_asym x y h =
    comes_after-eq y x ∙ fields_after_asym _ _ _ _ _ _ (sym (comes_after-eq x y) ∙ h)

comes_after_trans :
    (x y z : LocalMessage)
    → comes_after x y ≡ false
    → comes_after y z ≡ false
    → comes_after x z ≡ false
comes_after_trans x y z h k =
    comes_after-eq x z
    ∙ fields_after_trans _ _ _ y.envelope.server_sequence y.envelope.created_at y.envelope.id _ _ _
        (sym (comes_after-eq x y) ∙ h) (sym (comes_after-eq y z) ∙ k)

-- Whatever the input, the result is sorted: no message comes after a later one by sequence number,
-- then creation time, then id.
pub dedupe_and_sort_messages-IsSortedBy :
    (now : Text) (items : List LocalMessage)
    → IsSortedBy comes_after (dedupe_and_sort_messages now items)
unfolding dedupe_and_sort_messages
dedupe_and_sort_messages-IsSortedBy now items =
    sort_by-IsSortedBy comes_after comes_after_asym comes_after_trans _
