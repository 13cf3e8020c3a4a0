-- ===== src/Common/Numbers.antt =====
-- A JavaScript number: NaN, an infinity, or a finite value as a signed fraction.
use Prim.Native.Nat.{ℕ, ◌/◌}
use mathlib.Core.Bool.{Bool, true, false}

pub data Number : Type 0 where
  nan : Number
  infinite : Bool → Number
  fraction : (is_negative : Bool) (num den : ℕ) → Number

abbrev pub integer : ℕ → Number
integer n = fraction false n 1

abbrev pub is_finite : Number → Bool
is_finite (fraction s n d) = true
is_finite _ = false

-- `Math.max(0, Math.floor(x))` of a finite x.
abbrev pub floor_at_zero : Number → ℕ
floor_at_zero (fraction true n d) = 0
floor_at_zero (fraction false n d) = n / d
floor_at_zero _ = 0
