-- ===== src/Common/Distinct.antt =====
-- Lists whose elements have distinct keys, under sorting, filtering and replacing.
-- No two elements have the same key.
use y5fgb.Common.Tests.{if◌then◌else◌, Bool-cases, Option-cases}
use y5fgb.Common.Lists.{
  All, update_first, find, any, filter, All-filter, any-append, any-filter-not,
}
use y5fgb.Common.Sorting.{
  any-sort_by, insert_by, sort_by, IsSortedBy, find-insert_by, any-insert_by,
}
use mathlib.Core.Path.{ap, ◌≡◌, sym, ◌∙◌, refl, subst, fun_ext}
use mathlib.Core.Bool.{Bool, false, true, not}
use mathlib.Core.List.{[], ◌∷◌, List, ◌++◌}
use y5fgb.Common.Strings.{eq_text, Text, eq_text_iff}
use mathlib.Core.Logic.{inl, inr, ◌⊎◌}
use mathlib.Core.Option.{some, none}
use native.Mathlib.Omega.{arith}

module _ {ℓ} {A : Type ℓ} (key : A → Text) where
  abbrev pub has_key : Text → A → Bool
  has_key k x = eq_text (key x) k

  abbrev pub IsDistinctBy : List A → Type 0
  IsDistinctBy [] = Unit
  IsDistinctBy (x ∷ xs) = (any (has_key (key x)) xs ≡ false) × IsDistinctBy xs

  any-has_key_eq :
      (j k : Text) (xs : List A) → eq_text j k ≡ true → any (has_key j) xs ≡ any (has_key k) xs
  any-has_key_eq j k xs h = ap (λ t. any (has_key t) xs) ((eq_text_iff j k).0 h)

module _ {ℓ} {A : Type ℓ} (key : A → Text) (after : A → A → Bool) where
  insert_by-IsDistinctBy :
      (x : A) (xs : List A)
      → any (has_key key (key x)) xs ≡ false
      → IsDistinctBy key xs
      → IsDistinctBy key (insert_by after x xs)
  unfolding insert_by any
  insert_by-IsDistinctBy x [] h d = (refl, tt)
  insert_by-IsDistinctBy x (y ∷ ys) h (e, d) = ground (
    arith,
    insert_by-IsDistinctBy x ys,
    any-insert_by after (has_key key (key y)) x ys,
    eq_text_iff (key y) (key x),
    eq_text_iff (key x) (key y),
  )

  -- Sorting keeps the keys distinct.
  pub sort_by-IsDistinctBy :
      (xs : List A) → IsDistinctBy key xs → IsDistinctBy key (sort_by after xs)
  unfolding sort_by
  sort_by-IsDistinctBy [] d = tt
  sort_by-IsDistinctBy (x ∷ xs) (h, d) =
      insert_by-IsDistinctBy x (sort_by after xs) (any-sort_by after _ xs ∙ h)
        (sort_by-IsDistinctBy xs d)

  -- Where the keys are distinct, sorting moves elements but a search by key finds the same one.
  pub find-sort_by :
      (k : Text) (xs : List A)
      → IsDistinctBy key xs
      → find (has_key key k) (sort_by after xs) ≡ find (has_key key k) xs
  unfolding sort_by find
  find-sort_by k [] d = refl
  find-sort_by k (x ∷ xs) (h, d) =
      find-insert_by after (has_key key k) x (sort_by after xs)
        (λ e. any-sort_by after _ xs ∙ (sym (any-has_key_eq key (key x) k xs e) ∙ h))
      ∙ ap (λ o. if eq_text (key x) k then some x else o) (find-sort_by k xs d)

-- Filtering, and replacing an element by one with its key, keep order and keys.
module _ {ℓ} {A : Type ℓ} where
  any-filter : (p q : A → Bool) (xs : List A) → any p xs ≡ false → any p (filter q xs) ≡ false
  unfolding any filter
  any-filter p q [] h = refl
  any-filter p q (x ∷ xs) h = ground (arith, any-filter p q xs)

  pub filter-IsDistinctBy :
      (key : A → Text) (q : A → Bool) (xs : List A)
      → IsDistinctBy key xs
      → IsDistinctBy key (filter q xs)
  unfolding filter
  filter-IsDistinctBy key q [] d = tt
  filter-IsDistinctBy key q (x ∷ xs) (e, d) =
      ground (arith, filter-IsDistinctBy key q xs d, any-filter (has_key key (key x)) q xs)

  pub filter-IsSortedBy :
      (after : A → A → Bool) (q : A → Bool) (xs : List A)
      → IsSortedBy after xs
      → IsSortedBy after (filter q xs)
  unfolding filter
  filter-IsSortedBy after q [] s = tt
  filter-IsSortedBy after q (x ∷ xs) (h, s) =
      ground (arith, filter-IsSortedBy after q xs s, All-filter (λ y. after x y ≡ false) q xs h)

-- What `update_first` returns, one element at a time.
module _ {ℓ} {A : Type ℓ} (p : A → Bool) (f : A → A) where
  pub update_first-cases :
      (x : A) (xs ys : List A)
      → update_first p f (x ∷ xs) ≡ some ys
      → ((p x ≡ true) × (ys ≡ f x ∷ xs))
        ⊎ ((zs : List A) × (update_first p f xs ≡ some zs) × (ys ≡ x ∷ zs))
  unfolding update_first
  update_first-cases x xs ys e = elim (Bool-cases (p x)) [
    | inl hit ↦ inl (hit, ground arith)
    | inr miss ↦ elim (Option-cases (update_first p f xs)) [
      | inl gone ↦ absurd (ground arith)
      | inr (zs, found) ↦ inr (zs, found, ground arith)
    ]
  ]

  -- The updated element passed the test, so a property of such elements is enough.
  pub All-update_first {κ} :
      (P : A → Type κ) (xs ys : List A)
      → update_first p f xs ≡ some ys
      → ((x : A) → p x ≡ true → P x → P (f x))
      → All P xs
      → All P ys
  unfolding update_first
  All-update_first P [] ys e g h = cc
  All-update_first P (x ∷ xs) ys e g (k, h) = elim (update_first-cases x xs ys e) [
    | inl (hit, same) ↦ rw same (g x hit k, h)
    | inr (zs, found, same) ↦ rw same (k, All-update_first P xs zs found g h)
  ]

  any-update_first :
      (q : A → Bool) (xs ys : List A)
      → update_first p f xs ≡ some ys
      → ((x : A) → p x ≡ true → q (f x) ≡ q x)
      → any q ys ≡ any q xs
  unfolding update_first any
  any-update_first q [] ys e g = cc
  any-update_first q (x ∷ xs) ys e g = elim (update_first-cases x xs ys e) [
    | inl (hit, same) ↦ rw (same, g x hit) refl
    | inr (zs, found, same) ↦ rw (same, any-update_first q xs zs found g) refl
  ]

  pub update_first-IsDistinctBy :
      (key : A → Text) (xs ys : List A)
      → update_first p f xs ≡ some ys
      → ((x : A) → p x ≡ true → key (f x) ≡ key x)
      → IsDistinctBy key xs
      → IsDistinctBy key ys
  unfolding update_first
  update_first-IsDistinctBy key [] ys e g d = cc
  update_first-IsDistinctBy key (x ∷ xs) ys e g (h, d) = elim (update_first-cases x xs ys e) [
    | inl (hit, same) ↦ rw (same, g x hit) (h, d)
    | inr (zs, found, same) ↦ rw same (
      any-update_first (has_key key (key x)) xs zs found
            (λ y hit. ap (λ t. eq_text t (key x)) (g y hit))
          ∙ h,
      update_first-IsDistinctBy key xs zs found g d,
    )
  ]

  pub update_first-IsSortedBy :
      (after : A → A → Bool) (xs ys : List A)
      → update_first p f xs ≡ some ys
      → ((x y : A) → after (f x) y ≡ after x y)
      → ((x y : A) → after y (f x) ≡ after y x)
      → IsSortedBy after xs
      → IsSortedBy after ys
  unfolding update_first
  update_first-IsSortedBy after [] ys e l r s = cc
  update_first-IsSortedBy after (x ∷ xs) ys e l r (h, s) = elim (update_first-cases x xs ys e) [
    | inl (hit, same) ↦
        rw same (subst (λ t. All (λ y. t y ≡ false) xs) (fun_ext (λ y. sym (l x y))) h, s)
    | inr (zs, found, same) ↦ rw same (
      All-update_first (λ y. after x y ≡ false) xs zs found (λ y _ k. r y x ∙ k) h,
      update_first-IsSortedBy after xs zs found l r s,
    )
  ]

  -- A search that only the tested elements can answer finds the replaced element.
  pub find-update_first_hit :
      (q : A → Bool) (xs ys : List A) (old : A)
      → update_first p f xs ≡ some ys
      → find p xs ≡ some old
      → ((x : A) → q x ≡ true → p x ≡ true)
      → q (f old) ≡ true
      → find q ys ≡ some (f old)
  unfolding update_first find
  find-update_first_hit q [] ys old e h sub hit = cc
  find-update_first_hit q (x ∷ xs) ys old e h sub hit = elim (Bool-cases (p x)) [
    | inl here ↦
        let same : ys ≡ f x ∷ xs = ground arith in
        let first : x ≡ old = ground arith in rw same (rw first (rw hit refl))
    | inr miss ↦ elim (Option-cases (update_first p f xs)) [
      | inl gone ↦ absurd (ground arith)
      | inr (zs, found) ↦
          let same : ys ≡ x ∷ zs = ground arith in
          let later = find-update_first_hit q xs zs old found (ground arith) sub hit in
          rw same (ground (arith, sub x))
    ]
  ]

  -- A search that neither the old nor the new element answers finds what it found before.
  pub find-update_first_other :
      (q : A → Bool) (xs ys : List A) (old : A)
      → update_first p f xs ≡ some ys
      → find p xs ≡ some old
      → q old ≡ false
      → q (f old) ≡ false
      → find q ys ≡ find q xs
  unfolding update_first find
  find-update_first_other q [] ys old e h miss_old miss_new = cc
  find-update_first_other q (x ∷ xs) ys old e h miss_old miss_new = elim (Bool-cases (p x)) [
    | inl here ↦
        let same : ys ≡ f x ∷ xs = ground arith in
        let first : x ≡ old = ground arith in rw same (rw first (rw (miss_old, miss_new) refl))
    | inr miss ↦ elim (Option-cases (update_first p f xs)) [
      | inl gone ↦ absurd (ground arith)
      | inr (zs, found) ↦
          let same : ys ≡ x ∷ zs = ground arith in
          let later = find-update_first_other q xs zs old found (ground arith) miss_old miss_new in
          rw same (rw later refl)
    ]
  ]

  -- `update_first` finds an element where `find` does.
  pub update_first_of_find :
      (xs : List A) (old : A)
      → find p xs ≡ some old
      → (p old ≡ true) × ((ys : List A) × (update_first p f xs ≡ some ys))
  unfolding update_first find
  update_first_of_find [] old h = cc
  update_first_of_find (x ∷ xs) old h = elim (Bool-cases (p x)) [
    | inl here ↦ let first : x ≡ old = ground arith in (ground arith, (f x ∷ xs, rw here refl))
    | inr miss ↦
        let (hit, (ys, e)) = update_first_of_find xs old (ground arith) in
        (hit, (x ∷ ys, rw (miss, e) refl))
  ]

  pub update_first_of_missing : (xs : List A) → find p xs ≡ none → update_first p f xs ≡ none
  unfolding update_first find
  update_first_of_missing [] h = refl
  update_first_of_missing (x ∷ xs) h = ground (arith, update_first_of_missing xs)

module _ {ℓ} {A : Type ℓ} where
  pub any_of_stronger :
      (p q : A → Bool) (xs : List A)
      → ((x : A) → q x ≡ true → p x ≡ true)
      → any p xs ≡ false
      → any q xs ≡ false
  unfolding any
  any_of_stronger p q [] sub h = refl
  any_of_stronger p q (x ∷ xs) sub h = ground (arith, sub x, any_of_stronger p q xs sub)

  pub IsDistinctBy-concat :
      (key : A → Text) (n : A) (xs : List A)
      → any (has_key key (key n)) xs ≡ false
      → IsDistinctBy key xs
      → IsDistinctBy key (xs ++ n ∷ [])
  unfolding any
  IsDistinctBy-concat key n [] h d = (refl, tt)
  IsDistinctBy-concat key n (x ∷ xs) h (e, d) = (
    rw (any-append (has_key key (key x)) xs (n ∷ []))
        (ground (arith, eq_text_iff (key n) (key x), eq_text_iff (key x) (key n))),
    IsDistinctBy-concat key n xs (ground arith) d,
  )

  pub find-concat_by :
      (key : A → Text) (n : A) (k : Text) (xs : List A)
      → any (has_key key (key n)) xs ≡ false
      → find (has_key key k) (xs ++ n ∷ [])
        ≡ (if eq_text (key n) k then some n else find (has_key key k) xs)
  unfolding any find
  find-concat_by key n k [] h = refl
  find-concat_by key n k (x ∷ xs) h = ground (
    arith,
    find-concat_by key n k xs,
    eq_text_iff (key x) k,
    eq_text_iff (key n) k,
    eq_text_iff (key x) (key n),
  )

-- The same with what is known of the element that `find` finds.
module _ {ℓ} {A : Type ℓ} (p : A → Bool) (f : A → A) where
  any-update_first_found :
      (q : A → Bool) (xs ys : List A) (old : A)
      → update_first p f xs ≡ some ys
      → find p xs ≡ some old
      → q (f old) ≡ q old
      → any q ys ≡ any q xs
  unfolding update_first find any
  any-update_first_found q [] ys old e h k = cc
  any-update_first_found q (x ∷ xs) ys old e h k = elim (Bool-cases (p x)) [
    | inl here ↦
        let same : ys ≡ f x ∷ xs = ground arith in
        let first : x ≡ old = ground arith in rw same (rw first (rw k refl))
    | inr miss ↦ elim (Option-cases (update_first p f xs)) [
      | inl gone ↦ absurd (ground arith)
      | inr (zs, found) ↦
          let same : ys ≡ x ∷ zs = ground arith in
          let later = any-update_first_found q xs zs old found (ground arith) k in
          rw same (rw later refl)
    ]
  ]

  pub update_first-IsDistinctBy_found :
      (key : A → Text) (xs ys : List A) (old : A)
      → update_first p f xs ≡ some ys
      → find p xs ≡ some old
      → key (f old) ≡ key old
      → IsDistinctBy key xs
      → IsDistinctBy key ys
  unfolding update_first find
  update_first-IsDistinctBy_found key [] ys old e h k d = cc
  update_first-IsDistinctBy_found key (x ∷ xs) ys old e h k (a, d) = elim (Bool-cases (p x)) [
    | inl here ↦
        let same : ys ≡ f x ∷ xs = ground arith in
        let first : x ≡ old = ground arith in
        let kept : key (f x) ≡ key x = ap (λ y. key (f y)) first ∙ (k ∙ sym (ap key first)) in
        rw (same, kept) (a, d)
    | inr miss ↦ elim (Option-cases (update_first p f xs)) [
      | inl gone ↦ absurd (ground arith)
      | inr (zs, found) ↦
          let same : ys ≡ x ∷ zs = ground arith in
          let found_old : find p xs ≡ some old = ground arith in
          rw same (
            any-update_first_found (has_key key (key x)) xs zs old found found_old
                  (ap (λ t. eq_text t (key x)) k)
                ∙ a,
            update_first-IsDistinctBy_found key xs zs old found found_old k d,
          )
    ]
  ]

module _ {ℓ} {A : Type ℓ} (key : A → Text) where
  -- `[...xs.filter((item) => item.key !== x.key), x]` keeps the keys distinct.
  pub filter-append-IsDistinctBy :
      (x : A) (xs : List A)
      → IsDistinctBy key xs
      → IsDistinctBy key (filter (λ y. not (eq_text (key y) (key x))) xs ++ x ∷ [])
  filter-append-IsDistinctBy x xs d =
      IsDistinctBy-concat key x _ (any-filter-not (has_key key (key x)) xs)
        (filter-IsDistinctBy key _ xs d)
