-- ===== src/Common/Scan.antt =====
-- `trim`, `startsWith`, `includes` and character classes over texts.
use mathlib.Core.List.{◌∷◌, ◌++◌, []}
use mathlib.Core.Bool.{true, false, Bool, ◌&&◌, ◌||◌}
use y5fgb.Common.Tests.{leb, if◌then◌else◌, ◌==◌}
use mathlib.Core.Path.{refl, ◌≡◌}
use y5fgb.Common.Strings.{Text, is_empty}
use y5fgb.Common.Lists.{drop, length}
use Prim.Native.Nat.{ℕ}
use native.Mathlib.Omega.{arith}

-- The white space and line terminators that `String.prototype.trim` strips.
unfoldable pub is_space : ℕ → Bool
is_space c =
    (leb 9 c && leb c 13)
    || c == 32
    || c == 0xa0
    || c == 0x1680
    || (leb 0x2000 c && leb c 0x200a)
    || c == 0x2028
    || c == 0x2029
    || c == 0x202f
    || c == 0x205f
    || c == 0x3000
    || c == 0xfeff

unfoldable pub trim_start : Text → Text
trim_start [] = []
trim_start (c ∷ s) = let rest = trim_start s in if is_space c then rest else c ∷ s

unfoldable pub trim_end : Text → Text
trim_end [] = []
trim_end (c ∷ s) = let rest = trim_end s in if is_space c && is_empty rest then [] else c ∷ rest

unfoldable pub trim : Text → Text
unfolding trim_start trim_end is_space is_empty
trim s = trim_end (trim_start s)

unfoldable pub starts_with : Text → Text → Bool
starts_with [] s = true
starts_with (p ∷ ps) [] = false
starts_with (p ∷ ps) (c ∷ s) = p == c && starts_with ps s

unfoldable pub includes : Text → Text → Bool
unfolding starts_with
includes p [] = is_empty p
includes p (c ∷ s) = starts_with p (c ∷ s) || includes p s

unfoldable pub is_digit : ℕ → Bool
is_digit c = leb b'0' c && leb c b'9'

unfoldable pub is_lower : ℕ → Bool
is_lower c = leb b'a' c && leb c b'z'

unfoldable pub is_upper : ℕ → Bool
is_upper c = leb b'A' c && leb c b'Z'

-- `text.slice(prefix.length)` of `prefix + rest` is `rest`.
pub drop-length-append : (p s : Text) → drop (length p) (p ++ s) ≡ s
drop-length-append [] s = refl
drop-length-append (c ∷ p) s = drop-length-append p s

pub starts_with-append : (p s : Text) → starts_with p (p ++ s) ≡ true
unfolding starts_with
starts_with-append [] s = refl
starts_with-append (c ∷ p) s = ground (arith, starts_with-append p s)

-- A prefix is followed by what `drop` leaves.
pub append-drop_of_starts_with : (p s : Text) → starts_with p s ≡ true → p ++ drop (length p) s ≡ s
unfolding starts_with
append-drop_of_starts_with [] s h = refl
append-drop_of_starts_with (c ∷ p) [] h = cc
append-drop_of_starts_with (c ∷ p) (d ∷ s) h = ground (arith, append-drop_of_starts_with p s)
