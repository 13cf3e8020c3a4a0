-- ===== src/Plugins/Pattern.antt =====
-- The regular expressions of apps/client-desktop/src/services/plugins/manifest.ts and runtime.ts.
use y5fgb.Common.{
  true, is_lower, all, is_digit, ℕ, is_upper, if◌then◌else◌, Option, not, ◌&&◌, is_empty, Bool, [],
  ◌∷◌, leb, length, ◌||◌, ◌==◌, Text, false, some, none,
}

-- `[a-z0-9._-]`
unfoldable pub is_id_char : ℕ → Bool
unfolding is_lower is_digit
is_id_char c = is_lower c || is_digit c || c == b'.' || c == b'_' || c == b'-'

-- `[a-zA-Z0-9._-]`
unfoldable pub is_key_char : ℕ → Bool
unfolding is_lower is_upper is_digit
is_key_char c = is_lower c || is_upper c || is_digit c || c == b'.' || c == b'_' || c == b'-'

-- `^[...]{low,high}$`
unfoldable pub matches_class : (ℕ → Bool) → ℕ → ℕ → Text → Bool
unfolding all
matches_class p low high s = leb low (length s) && leb (length s) high && all p s

-- `idPattern`
unfoldable pub id_pattern : Text → Bool
unfolding matches_class is_id_char
id_pattern = matches_class is_id_char 3 64

-- `storageKeyPattern`
unfoldable pub storage_key_pattern : Text → Bool
unfolding matches_class is_key_char
storage_key_pattern = matches_class is_key_char 1 128

-- `runtimeIDPattern`
unfoldable pub runtime_id_pattern : Text → Bool
unfolding matches_class is_key_char
runtime_id_pattern = matches_class is_key_char 1 96

-- `[0-9]*`: what follows the digits.
skip_digits : Text → Text
skip_digits [] = []
skip_digits (c ∷ s) = let rest = skip_digits s in if is_digit c then rest else c ∷ s

-- `[0-9]+`, then what follows.
digits : Text → Option Text
digits [] = none
digits (c ∷ s) = if is_digit c then some (skip_digits s) else none

dot : Text → Option Text
dot [] = none
dot (c ∷ s) = if c == b'.' then some s else none

-- A line terminator, which `.` does not match.
is_line_end : ℕ → Bool
is_line_end c = c == 10 || c == 13 || c == 0x2028 || c == 0x2029

-- `(?:[-+].+)?$`
suffix : Text → Bool
suffix [] = true
suffix (c ∷ s) = (c == b'-' || c == b'+') && not (is_empty s) && all (λ d. not (is_line_end d)) s

infixl 5 ◌>>=◌
abbrev ◌>>=◌ {ℓ κ} : {A : Type ℓ} {B : Type κ} → Option A → (A → Option B) → Option B
none >>= f = none
some a >>= f = f a

-- `semverPattern`
unfoldable pub semver_pattern : Text → Bool
unfolding skip_digits digits dot suffix is_line_end is_digit
semver_pattern s =
    let rest : Option Text = digits s >>= dot >>= digits >>= dot >>= digits in
    elim rest [ none ↦ false | some r ↦ suffix r ]
