-- ===== src/Common/Sorting.antt =====
-- The stable sort of `Array.prototype.sort` under a comparator, as an insertion sort; `after x y`
-- is "the comparator of x and y is positive".
use mathlib.Core.List.Perm
use mathlib.Core.List.{List, [], ◌∷◌, Perm}
use mathlib.Core.Path.{◌≡◌, refl}
use mathlib.Core.Bool.{Bool, true, false, ◌||◌}
use mathlib.Core.Logic.{inl, inr}
use mathlib.Core.Option.{some}
use native.Mathlib.Omega.{arith}
use y5fgb.Common.Tests.{if◌then◌else◌, Bool-cases}
use y5fgb.Common.Lists.{All, any, find}

module _ {ℓ} {A : Type ℓ} (after : A → A → Bool) where
  unfoldable pub insert_by : A → List A → List A
  insert_by x [] = x ∷ []
  insert_by x (y ∷ ys) = let rest = insert_by x ys in if after x y then y ∷ rest else x ∷ (y ∷ ys)

  unfoldable pub sort_by : List A → List A
  unfolding insert_by
  sort_by [] = []
  sort_by (x ∷ xs) = insert_by x (sort_by xs)

  -- Every element is at most each later one.
  abbrev pub IsSortedBy : List A → Type 0
  IsSortedBy [] = Unit
  IsSortedBy (x ∷ xs) = All (λ y. after x y ≡ false) xs × IsSortedBy xs

  All-insert_by {κ} :
      (P : A → Type κ) (x : A) (xs : List A) → P x → All P xs → All P (insert_by x xs)
  unfolding insert_by
  All-insert_by P x [] p h = (p, tt)
  All-insert_by P x (y ∷ ys) p (q, h) = ground (arith, All-insert_by P x ys p h)

  pub All-sort_by {κ} : (P : A → Type κ) (xs : List A) → All P xs → All P (sort_by xs)
  unfolding sort_by
  All-sort_by P [] h = tt
  All-sort_by P (x ∷ xs) (p, h) = All-insert_by P x (sort_by xs) p (All-sort_by P xs h)

  pub any-insert_by :
      (p : A → Bool) (x : A) (xs : List A) → any p (insert_by x xs) ≡ (p x || any p xs)
  unfolding insert_by any
  any-insert_by p x [] = refl
  any-insert_by p x (y ∷ ys) = ground (arith, any-insert_by p x ys)

  pub any-sort_by : (p : A → Bool) (xs : List A) → any p (sort_by xs) ≡ any p xs
  unfolding sort_by any
  any-sort_by p [] = refl
  any-sort_by p (x ∷ xs) = rw (any-insert_by p x (sort_by xs), any-sort_by p xs) refl

  pub find-insert_by :
      (p : A → Bool) (x : A) (xs : List A)
      → (p x ≡ true → any p xs ≡ false)
      → find p (insert_by x xs) ≡ (if p x then some x else find p xs)
  unfolding insert_by find any
  find-insert_by p x [] h = refl
  find-insert_by p x (y ∷ ys) h = ground (arith, find-insert_by p x ys)

  insert_by-perm : (x : A) (xs : List A) → Perm (x ∷ xs) (insert_by x xs)
  unfolding insert_by
  insert_by-perm x [] = Perm.refl (x ∷ [])
  insert_by-perm x (y ∷ ys) = elim (Bool-cases (after x y)) [
    | inl e ↦ rw (e, insert_by) (Perm.trans (Perm.swap y x ys) (Perm.cons y (insert_by-perm x ys)))
    | inr e ↦ rw (e, insert_by) (Perm.refl (x ∷ y ∷ ys))
  ]

  pub sort_by-perm : (xs : List A) → Perm xs (sort_by xs)
  unfolding sort_by
  sort_by-perm [] = Perm.refl []
  sort_by-perm (x ∷ xs) = Perm.trans (Perm.cons x (sort_by-perm xs)) (insert_by-perm x (sort_by xs))

  insert_by_least :
      (x : A) (xs : List A) → All (λ y. after x y ≡ false) xs → insert_by x xs ≡ x ∷ xs
  unfolding insert_by
  insert_by_least x [] h = refl
  insert_by_least x (y ∷ ys) (e, h) = rw e refl

  -- A sorted list stays as it is.
  pub sort_by_of_IsSortedBy : (xs : List A) → IsSortedBy xs → sort_by xs ≡ xs
  unfolding sort_by
  sort_by_of_IsSortedBy [] h = refl
  sort_by_of_IsSortedBy (x ∷ xs) (h, hs) = rw (sort_by_of_IsSortedBy xs hs) (insert_by_least x xs h)

  module _ (asym : (x y : A) → after x y ≡ true → after y x ≡ false)
      (trans : (x y z : A) → after x y ≡ false → after y z ≡ false → after x z ≡ false) where
    All-trans :
        (x y : A) (zs : List A)
        → after x y ≡ false
        → All (λ z. after y z ≡ false) zs
        → All (λ z. after x z ≡ false) zs
    All-trans x y [] e h = tt
    All-trans x y (z ∷ zs) e (f, h) = (trans x y z e f, All-trans x y zs e h)

    insert_by-IsSortedBy : (x : A) (xs : List A) → IsSortedBy xs → IsSortedBy (insert_by x xs)
    unfolding insert_by
    insert_by-IsSortedBy x [] h = (tt, tt)
    insert_by-IsSortedBy x (y ∷ ys) (h, hs) = elim (Bool-cases (after x y)) [
      | inl e ↦
          rw (e, insert_by)
            (
              All-insert_by (λ z. after y z ≡ false) x ys (asym x y e) h,
              insert_by-IsSortedBy x ys hs,
            )
      | inr e ↦ rw (e, insert_by) ((e, All-trans x y ys e h), (h, hs))
    ]

    pub sort_by-IsSortedBy : (xs : List A) → IsSortedBy (sort_by xs)
    unfolding sort_by
    sort_by-IsSortedBy [] = tt
    sort_by-IsSortedBy (x ∷ xs) = insert_by-IsSortedBy x (sort_by xs) (sort_by-IsSortedBy xs)
