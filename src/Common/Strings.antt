-- ===== src/Common/Strings.antt =====
-- JavaScript strings as lists of UTF-16 code units: comparison, `trim`, `startsWith`, `includes`.
use Prim.Native.Char.{code}
use Prim.Native.Nat.{ℕ}
use Prim.Native.String.{String}
use mathlib.Core.Path.{◌≡◌, refl}
use mathlib.Core.Logic.{◌↔◌}
use mathlib.Core.Bool.{Bool, true, false, ◌&&◌, ◌||◌}
use mathlib.Core.List.{List, [], ◌∷◌}
use native.Mathlib.Omega.{arith}
use y5fgb.Common.Tests.{ltb, ◌==◌}
use y5fgb.Common.Lists.{any}

abbrev pub Text : Type 0
Text = List ℕ

-- The code units of a literal, all of which are ASCII here.
abbrev pub codes : String → Text
codes String.[] = []
codes (String.◌∷◌ c s) = code c ∷ codes s

-- `a === b`
unfoldable pub eq_text : Text → Text → Bool
eq_text [] [] = true
eq_text (a ∷ as') (b ∷ bs) = a == b && eq_text as' bs
eq_text _ _ = false

pub eq_text_iff : (a b : Text) → (eq_text a b ≡ true) ↔ (a ≡ b)
unfolding eq_text
eq_text_iff [] [] = ground arith
eq_text_iff [] (b ∷ bs) = ground arith
eq_text_iff (a ∷ as') [] = ground arith
eq_text_iff (a ∷ as') (b ∷ bs) = ground (arith, eq_text_iff as' bs)

pub eq_text_refl : (a : Text) → eq_text a a ≡ true
eq_text_refl a = (eq_text_iff a a).1 refl

-- `a < b`: the order of code units, as JavaScript compares strings.
unfoldable pub lt_text : Text → Text → Bool
lt_text _ [] = false
lt_text [] (b ∷ bs) = true
lt_text (a ∷ as') (b ∷ bs) = ltb a b || (a == b && lt_text as' bs)

unfoldable pub is_empty : Text → Bool
is_empty [] = true
is_empty (c ∷ s) = false

unfoldable pub has_text : Text → List Text → Bool
unfolding any
has_text x = any (eq_text x)

pub lt_text_asym : (a b : Text) → lt_text a b ≡ true → lt_text b a ≡ false
unfolding lt_text
lt_text_asym [] [] h = refl
lt_text_asym [] (b ∷ bs) h = refl
lt_text_asym (a ∷ as') [] h = cc
lt_text_asym (a ∷ as') (b ∷ bs) h = ground (arith, lt_text_asym as' bs)

pub eq_of_lt_text : (a b : Text) → lt_text a b ≡ false → lt_text b a ≡ false → a ≡ b
unfolding lt_text
eq_of_lt_text [] [] h k = refl
eq_of_lt_text [] (b ∷ bs) h k = cc
eq_of_lt_text (a ∷ as') [] h k = cc
eq_of_lt_text (a ∷ as') (b ∷ bs) h k = ground (arith, eq_of_lt_text as' bs)

pub lt_text_trans : (a b c : Text) → lt_text a b ≡ true → lt_text b c ≡ true → lt_text a c ≡ true
unfolding lt_text
lt_text_trans [] [] c h k = cc
lt_text_trans [] (b ∷ bs) [] h k = cc
lt_text_trans [] (b ∷ bs) (c ∷ cs) h k = refl
lt_text_trans (a ∷ as') [] c h k = cc
lt_text_trans (a ∷ as') (b ∷ bs) [] h k = cc
lt_text_trans (a ∷ as') (b ∷ bs) (c ∷ cs) h k = ground (arith, lt_text_trans as' bs cs)

pub le_text_trans : (a b c : Text) → lt_text b a ≡ false → lt_text c b ≡ false → lt_text c a ≡ false
unfolding lt_text
le_text_trans [] b c h k = refl
le_text_trans (a ∷ as') [] c h k = cc
le_text_trans (a ∷ as') (b ∷ bs) [] h k = cc
le_text_trans (a ∷ as') (b ∷ bs) (c ∷ cs) h k = ground (arith, le_text_trans as' bs cs)
