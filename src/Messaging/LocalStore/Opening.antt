-- ===== src/Messaging/LocalStore/Opening.antt =====
-- What the loop over sealed rows returns.
use y5fgb.Common.{
  ◌∙◌, any, has_key, List, Option, Option-cases, refl, some, some-injective, ◌≡◌, inl, arith, ◌∷◌,
  Text, inr, IsDistinctBy, [], sym, eq_text, ap, find, Bool-cases, none-ne-some,
}
use y5fgb.Messaging.LocalStore.{open_all}

module _ {ℓ κ} {A : Type ℓ} {B : Type κ} (unseal : A → Option B) where
  pub open_all-cases :
      (x : A) (xs : List A) (ys : List B)
      → open_all unseal (x ∷ xs) ≡ some ys
      → (b : B) × (bs : List B) × (unseal x ≡ some b)
        × (open_all unseal xs ≡ some bs)
        × (ys ≡ b ∷ bs)
  unfolding open_all
  open_all-cases x xs ys e = elim (Option-cases (unseal x)) [
    | inl shut ↦ absurd (ground arith)
    | inr (b, found) ↦ elim (Option-cases (open_all unseal xs)) [
      | inl gone ↦ absurd (ground arith)
      | inr (bs, rest) ↦ (b, bs, found, rest, ground arith)
    ]
  ]

  -- The keys of the opened values are those of the rows.
  module _ (key : A → Text) (name : B → Text)
      (same : (a : A) (b : B) → unseal a ≡ some b → name b ≡ key a) where
    pub any-open_all :
        (k : Text) (xs : List A) (ys : List B)
        → open_all unseal xs ≡ some ys
        → any (has_key name k) ys ≡ any (has_key key k) xs
    unfolding any open_all
    any-open_all k [] ys e = rw (← some-injective _ ys e) refl
    any-open_all k (x ∷ xs) ys e =
        let (b, bs, found, rest, shape) = open_all-cases x xs ys e in
        rw (shape, same x b found, any-open_all k xs bs rest) refl

    pub open_all-IsDistinctBy :
        (xs : List A) (ys : List B)
        → open_all unseal xs ≡ some ys
        → IsDistinctBy key xs
        → IsDistinctBy name ys
    unfolding open_all
    open_all-IsDistinctBy [] ys e d = rw (← some-injective _ ys e) tt
    open_all-IsDistinctBy (x ∷ xs) ys e (new, d) =
        let (b, bs, found, rest, shape) = open_all-cases x xs ys e in
        rw shape (
          any-open_all (name b) xs bs rest ∙ rw (same x b found) new,
          open_all-IsDistinctBy xs bs rest d,
        )

    pub find-open_all :
        (k : Text) (xs : List A) (ys : List B) (a : A) (b : B)
        → open_all unseal xs ≡ some ys
        → find (has_key key k) xs ≡ some a
        → unseal a ≡ some b
        → find (has_key name k) ys ≡ some b
    unfolding find open_all
    find-open_all k [] ys a b e f u = absurd (none-ne-some a f)
    find-open_all k (x ∷ xs) ys a b e f u =
        let (c, cs, found, rest, shape) = open_all-cases x xs ys e in
        let named : eq_text (name c) k ≡ eq_text (key x) k =
          ap (λ t. eq_text t k) (same x c found) in
        elim (Bool-cases (eq_text (key x) k)) [
          | inl own ↦
              let x-eq : x ≡ a = some-injective x a (sym (rw own refl) ∙ f) in
              let c-eq : some c ≡ some b = sym found ∙ ap unseal x-eq ∙ u in
              rw shape (rw (named, own) c-eq)
          | inr other ↦
              rw shape
                (rw (named, other) (find-open_all k xs cs a b rest (sym (rw other refl) ∙ f) u))
        ]
