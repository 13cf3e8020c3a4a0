-- ===== src/Common/Maps.antt =====
-- `Map` and `Record<string, V>` as association lists: a new key is added at the end, an old one
-- keeps its place, which is the order in which JavaScript iterates.
use mathlib.Core.Path.{◌≡◌, refl, subst, sym}
use mathlib.Core.Option.{Option, none, some, some-injective}
use mathlib.Core.List.{List, [], ◌∷◌}
use native.Mathlib.Omega.{arith}
use y5fgb.Common.Tests.{if◌then◌else◌, Bool-cases}
use y5fgb.Common.Strings.{Text, eq_text, eq_text_iff}
use y5fgb.Common.Lists.{All}
use mathlib.Core.Logic.{inl, inr}

abbrev pub Dict {ℓ} : Type ℓ → Type ℓ
Dict V = List (Text × V)

module _ {ℓ} {V : Type ℓ} where
  unfoldable pub lookup : Text → Dict V → Option V
  lookup k [] = none
  lookup k ((j, v) ∷ m) = if eq_text j k then some v else lookup k m

  unfoldable pub insert : Text → V → Dict V → Dict V
  insert k v [] = (k, v) ∷ []
  insert k v ((j, w) ∷ m) = if eq_text j k then (j, v) ∷ m else (j, w) ∷ insert k v m

  unfoldable pub remove : Text → Dict V → Dict V
  remove k [] = []
  remove k ((j, v) ∷ m) = let rest = remove k m in if eq_text j k then rest else (j, v) ∷ rest

  pub lookup-insert :
      (k j : Text) (v : V) (m : Dict V)
      → lookup j (insert k v m) ≡ (if eq_text k j then some v else lookup j m)
  unfolding lookup insert
  lookup-insert k j v [] = refl
  lookup-insert k j v ((i, w) ∷ m) =
      ground (arith, eq_text_iff k j, eq_text_iff i k, eq_text_iff i j, lookup-insert k j v m)

  pub lookup-remove :
      (k j : Text) (m : Dict V) → lookup j (remove k m) ≡ (if eq_text k j then none else lookup j m)
  unfolding lookup remove
  lookup-remove k j [] = ground arith
  lookup-remove k j ((i, w) ∷ m) =
      ground (arith, eq_text_iff k j, eq_text_iff i k, eq_text_iff i j, lookup-remove k j m)

module _ {ℓ κ} {V : Type ℓ} (P : Text × V → Type κ) where
  pub All-insert : (k : Text) (v : V) (m : Dict V) → P (k, v) → All P m → All P (insert k v m)
  unfolding insert
  All-insert k v [] p h = (p, tt)
  All-insert k v ((j, w) ∷ m) p (q, h) = elim (Bool-cases (eq_text j k)) [
    | inl same ↦ rw same (subst (λ i. P (i, v)) (sym ((eq_text_iff j k).0 same)) p, h)
    | inr other ↦ rw other (q, All-insert k v m p h)
  ]

  pub All-remove : (k : Text) (m : Dict V) → All P m → All P (remove k m)
  unfolding remove
  All-remove k [] h = tt
  All-remove k ((j, w) ∷ m) (q, h) = ground (arith, All-remove k m h)

  pub All-lookup : (k : Text) (m : Dict V) (v : V) → All P m → lookup k m ≡ some v → P (k, v)
  unfolding lookup
  All-lookup k [] v h e = absurd (ground arith)
  All-lookup k ((j, w) ∷ m) v (q, h) e = elim (Bool-cases (eq_text j k)) [
    | inl same ↦
        let value : w ≡ v = some-injective w v (rw same at e) in
        let key : j ≡ k = (eq_text_iff j k).0 same in
        subst (λ u. P (k, u)) value (subst (λ i. P (i, w)) key q)
    | inr other ↦ All-lookup k m v h (rw other at e)
  ]
