-- ===== src/Identity/Once.antt =====
-- The old key pairs that `dedupeLegacy` of apps/client-desktop/src/services/identity.ts
-- keeps, beside an independent description of them.
use y5fgb.Identity.{dedupe_legacy, dedupe_key, KeyPair, next_legacy}
use y5fgb.Common.{
  inl, ◌∷◌, eq_text, has_key, Bool, take, inr, has_text, arith, [], Bool-cases, List, ◌∙◌, ap, refl,
  not, IsDistinctBy, ◌++◌, false, sym, zero, suc, true, filter-IsDistinctBy, eq_text_iff, any,
  filter, Text, any-filter-not, ℕ, ◌≡◌, codes, subst,
}

-- The text by which pairs are compared.
abbrev pub pair_text : KeyPair → Text
pair_text pair = pair.public_key ++ (codes ":" ++ pair.private_key)

-- The pairs that do not stand earlier in the list.
unfoldable pub once : List KeyPair → List KeyPair
once [] = []
once (pair ∷ pairs) =
    pair ∷ filter (λ other. not (eq_text (pair_text other) (pair_text pair))) (once pairs)

abbrev is_new : List Text → KeyPair → Bool
is_new seen pair = not (has_text (pair_text pair) seen)

filter-is_new :
    (seen : List Text) (k : Text) (pairs : List KeyPair)
    → filter (is_new seen) (filter (λ other. not (eq_text (pair_text other) k)) pairs)
      ≡ filter (is_new (k ∷ seen)) pairs
unfolding filter has_text any
filter-is_new seen k [] = refl
filter-is_new seen k (pair ∷ pairs) = ground (
  arith,
  filter-is_new seen k pairs,
  eq_text_iff (pair_text pair) k,
  eq_text_iff k (pair_text pair),
)

has_text-seen :
    (t k : Text) (seen : List Text)
    → has_text k seen ≡ true
    → has_text t (k ∷ seen) ≡ has_text t seen
unfolding has_text any
has_text-seen t k seen there = elim (Bool-cases (eq_text t k)) [
  | inl e ↦
      rw (has_text, any, e)
        (sym (subst (λ u. has_text u seen ≡ true) (sym ((eq_text_iff t k).0 e)) there))
  | inr e ↦ rw (has_text, any, e) refl
]

filter-is_new_seen :
    (seen : List Text) (k : Text) (pairs : List KeyPair)
    → has_text k seen ≡ true
    → filter (is_new (k ∷ seen)) pairs ≡ filter (is_new seen) pairs
unfolding filter
filter-is_new_seen seen k [] there = refl
filter-is_new_seen seen k (pair ∷ pairs) there =
    rw (filter, has_text-seen (pair_text pair) k seen there, filter-is_new_seen seen k pairs there)
      refl

dedupe_legacy-once :
    (seen : List Text) (pairs : List KeyPair)
    → dedupe_legacy seen pairs ≡ filter (is_new seen) (once pairs)
unfolding dedupe_legacy once filter
dedupe_legacy-once seen [] = refl
dedupe_legacy-once seen (pair ∷ pairs) =
    let k = dedupe_key pair in
    let tail = filter-is_new seen k (once pairs) in
    elim (Bool-cases (has_text k seen)) [
      | inl old ↦
          rw (dedupe_legacy, once, filter, old, dedupe_legacy-once seen pairs, tail)
            (sym (filter-is_new_seen seen k (once pairs) old))
      | inr new ↦
          rw (dedupe_legacy, once, filter, new, dedupe_legacy-once (k ∷ seen) pairs, tail) refl
    ]

filter-is_new_nil : (pairs : List KeyPair) → filter (is_new []) pairs ≡ pairs
unfolding filter has_text any
filter-is_new_nil [] = refl
filter-is_new_nil (pair ∷ pairs) = rw (filter, filter-is_new_nil pairs) refl

-- What the change of keys writes.
pub next_legacy-once :
    (current : KeyPair) (stored : List KeyPair)
    → next_legacy current stored ≡ take 5 (once (current ∷ stored))
next_legacy-once current stored =
    ap (take 5)
      (dedupe_legacy-once [] (current ∷ stored) ∙ filter-is_new_nil (once (current ∷ stored)))

any-take {ℓ} :
    {A : Type ℓ} (p : A → Bool) (n : ℕ) (xs : List A) → any p xs ≡ false → any p (take n xs) ≡ false
unfolding any
any-take p zero xs h = refl
any-take p (suc n) [] h = refl
any-take p (suc n) (x ∷ xs) h = ground (arith, any-take p n xs)

pub take-IsDistinctBy {ℓ} :
    {A : Type ℓ} (key : A → Text) (n : ℕ) (xs : List A)
    → IsDistinctBy key xs
    → IsDistinctBy key (take n xs)
take-IsDistinctBy key zero xs d = tt
take-IsDistinctBy key (suc n) [] d = tt
take-IsDistinctBy key (suc n) (x ∷ xs) (new, d) =
    (any-take (has_key key (key x)) n xs new, take-IsDistinctBy key n xs d)

pub once-IsDistinctBy : (pairs : List KeyPair) → IsDistinctBy pair_text (once pairs)
unfolding once
once-IsDistinctBy [] = tt
once-IsDistinctBy (pair ∷ pairs) = (
  any-filter-not (has_key pair_text (pair_text pair)) (once pairs),
  filter-IsDistinctBy pair_text (λ other. not (eq_text (pair_text other) (pair_text pair)))
      (once pairs) (once-IsDistinctBy pairs),
)
