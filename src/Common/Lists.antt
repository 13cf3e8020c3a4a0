-- ===== src/Common/Lists.antt =====
-- Lists under Boolean tests: `filter`, `some`, `find` and `findIndex` of JavaScript arrays.
use mathlib.Core.Option
use Prim.Native.Nat.{ℕ, zero, suc, ◌≤◌}
use mathlib.Core.Path.{◌≡◌, refl, subst, sym, ap, ◌∙◌}
use mathlib.Core.Bool.{Bool, true, false, not, ◌&&◌, ◌||◌}
use mathlib.Core.Option.{Option, none, some, some-injective}
use mathlib.Core.List.{List, [], ◌∷◌, ◌++◌, map}
use native.Mathlib.Omega.{arith}
use y5fgb.Common.Tests.{if◌then◌else◌, Bool-cases}
use mathlib.Core.Logic.{inr, inl}

module _ {ℓ} {A : Type ℓ} where
  abbrev pub length : List A → ℕ
  length [] = 0
  length (x ∷ xs) = suc (length xs)

  abbrev pub take : ℕ → List A → List A
  take zero xs = []
  take (suc n) [] = []
  take (suc n) (x ∷ xs) = x ∷ take n xs

  abbrev pub drop : ℕ → List A → List A
  drop zero xs = xs
  drop (suc n) [] = []
  drop (suc n) (x ∷ xs) = drop n xs

  abbrev pub All {κ} : (A → Type κ) → List A → Type κ
  All P [] = Unit
  All P (x ∷ xs) = P x × All P xs

  unfoldable pub any : (A → Bool) → List A → Bool
  any p [] = false
  any p (x ∷ xs) = p x || any p xs

  unfoldable pub all : (A → Bool) → List A → Bool
  all p [] = true
  all p (x ∷ xs) = p x && all p xs

  unfoldable pub filter : (A → Bool) → List A → List A
  filter p [] = []
  filter p (x ∷ xs) = let rest = filter p xs in if p x then x ∷ rest else rest

  unfoldable pub find : (A → Bool) → List A → Option A
  find p [] = none
  find p (x ∷ xs) = if p x then some x else find p xs

  -- `findIndex` and, where it is not -1, the copy of the array with that element replaced.
  unfoldable pub update_first : (A → Bool) → (A → A) → List A → Option (List A)
  update_first p f [] = none
  update_first p f (x ∷ xs) =
      let rest = update_first p f xs in
      if p x then some (f x ∷ xs) else elim rest [ none ↦ none | some ys ↦ some (x ∷ ys) ]

  pub length-take-le : (n : ℕ) (xs : List A) → length (take n xs) ≤ n
  length-take-le zero xs = omega arith
  length-take-le (suc n) [] = omega arith
  length-take-le (suc n) (x ∷ xs) = omega (arith, length-take-le n xs)

  pub filter-filter_self : (p : A → Bool) (xs : List A) → filter p (filter p xs) ≡ filter p xs
  unfolding filter
  filter-filter_self p [] = refl
  filter-filter_self p (x ∷ xs) = ground (arith, filter-filter_self p xs)

  pub any-append : (p : A → Bool) (xs ys : List A) → any p (xs ++ ys) ≡ (any p xs || any p ys)
  unfolding any
  any-append p [] ys = refl
  any-append p (x ∷ xs) ys = ground (arith, any-append p xs ys)

  pub filter-append :
      (p : A → Bool) (xs ys : List A) → filter p (xs ++ ys) ≡ filter p xs ++ filter p ys
  unfolding filter
  filter-append p [] ys = refl
  filter-append p (x ∷ xs) ys = ground (arith, filter-append p xs ys)

  -- No element of a filtered list fails the test.
  pub any-filter-not : (p : A → Bool) (xs : List A) → any p (filter (λ x. not (p x)) xs) ≡ false
  unfolding any filter
  any-filter-not p [] = refl
  any-filter-not p (x ∷ xs) = ground (arith, any-filter-not p xs)

module _ {ℓ κ} {A : Type ℓ} (P : A → Type κ) where
  pub All-append : (xs ys : List A) → All P xs → All P ys → All P (xs ++ ys)
  All-append [] ys h k = k
  All-append (x ∷ xs) ys (p, h) k = (p, All-append xs ys h k)

  pub All-filter : (p : A → Bool) (xs : List A) → All P xs → All P (filter p xs)
  unfolding filter
  All-filter p [] h = tt
  All-filter p (x ∷ xs) (q, h) = ground (arith, All-filter p xs h)

  pub All-take : (n : ℕ) (xs : List A) → All P xs → All P (take n xs)
  All-take zero xs h = tt
  All-take (suc n) [] h = tt
  All-take (suc n) (x ∷ xs) (q, h) = (q, All-take n xs h)

module _ {ℓ} {A : Type ℓ} where
  pub any_of_find : (p : A → Bool) (xs : List A) → find p xs ≡ none → any p xs ≡ false
  unfolding find any
  any_of_find p [] h = refl
  any_of_find p (x ∷ xs) h = ground (arith, any_of_find p xs)

  -- `update_first` fails exactly where no element passes the test.
  pub any_of_update_first :
      (p : A → Bool) (f : A → A) (xs : List A) → update_first p f xs ≡ none → any p xs ≡ false
  unfolding update_first any
  any_of_update_first p f [] h = refl
  any_of_update_first p f (x ∷ xs) h = ground (arith, any_of_update_first p f xs)

  pub find-filter-not :
      (p q : A → Bool) (xs : List A)
      → ((x : A) → p x ≡ true → q x ≡ false)
      → find p (filter (λ x. not (q x)) xs) ≡ find p xs
  unfolding find filter
  find-filter-not p q [] h = refl
  find-filter-not p q (x ∷ xs) h = ground (arith, h x, find-filter-not p q xs h)

module _ {ℓ κ} {A : Type ℓ} (P : A → Type κ) where
  -- What `find` returns is an element that passes the test.
  pub All-find :
      (p : A → Bool) (xs : List A) → All P xs → (x : A) → find p xs ≡ some x → P x × (p x ≡ true)
  unfolding find
  All-find p [] h x e = absurd (ground arith)
  All-find p (y ∷ xs) (q, h) x e = elim (Bool-cases (p y)) [
    | inl hit ↦
        let same : y ≡ x = some-injective y x (rw hit at e) in
        (subst P same q, subst (λ z. p z ≡ true) same hit)
    | inr miss ↦ All-find p xs h x (rw miss at e)
  ]

module _ {ℓ κ μ} {A : Type ℓ} (P : A → Type κ) (Q : A → Type μ) where
  pub All-weaken : (f : (x : A) → P x → Q x) (xs : List A) → All P xs → All Q xs
  All-weaken f [] h = tt
  All-weaken f (x ∷ xs) (p, h) = (f x p, All-weaken f xs h)

module _ {ℓ} {A : Type ℓ} where
  pub any_of_found : (p : A → Bool) (xs : List A) (x : A) → find p xs ≡ some x → any p xs ≡ true
  unfolding find any
  any_of_found p [] x h = absurd (ground arith)
  any_of_found p (y ∷ xs) x h = ground (arith, any_of_found p xs x)

  pub All-map {κ μ} :
      {B : Type μ} (P : B → Type κ) (f : A → B) (xs : List A)
      → All (λ x. P (f x)) xs
      → All P (map f xs)
  All-map P f [] h = tt
  All-map P f (x ∷ xs) (p, h) = (p, All-map P f xs h)

  -- A change that the test does not see is made on what `find` returns.
  pub find-map_kept :
      (p : A → Bool) (f : A → A) (xs : List A)
      → ((x : A) → p (f x) ≡ p x)
      → find p (map f xs) ≡ Option.map f (find p xs)
  unfolding find
  find-map_kept p f [] kept = refl
  find-map_kept p f (x ∷ xs) kept = elim (Bool-cases (p x)) [
    | inl hit ↦ rw (find, kept x, hit) refl
    | inr miss ↦ rw (find, kept x, miss) (find-map_kept p f xs kept)
  ]

  -- What `find` returns passes the test.
  pub find-passes : (p : A → Bool) (xs : List A) (x : A) → find p xs ≡ some x → p x ≡ true
  unfolding find
  find-passes p [] x e = absurd (ground arith)
  find-passes p (y ∷ xs) x e = elim (Bool-cases (p y)) [
    | inl hit ↦ ap p (sym (some-injective y x (rw hit at e))) ∙ hit
    | inr miss ↦ find-passes p xs x (rw miss at e)
  ]

  pub find_of_any : (p : A → Bool) (xs : List A) → any p xs ≡ false → find p xs ≡ none
  unfolding find any
  find_of_any p [] h = refl
  find_of_any p (x ∷ xs) h = ground (arith, find_of_any p xs)

  pub All-filter_passed : (p : A → Bool) (xs : List A) → All (λ x. p x ≡ true) (filter p xs)
  unfolding filter
  All-filter_passed p [] = tt
  All-filter_passed p (x ∷ xs) = elim (Bool-cases (p x)) [
    | inl e ↦ rw e (e, All-filter_passed p xs)
    | inr e ↦ rw e (All-filter_passed p xs)
  ]
