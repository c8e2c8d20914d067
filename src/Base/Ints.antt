-- ===== src/Base/Ints.antt =====
-- Go's signed integers where the program tests their sign, over the native numbers.
use Prim.Native.Nat.{ℕ, zero, suc}
use mathlib.Core.Bool.{Bool, true, false}

pub data ℤ : Type 0 where
  pos : ℕ → ℤ
  negsuc : ℕ → ℤ

abbrev pub is_negative : ℤ → Bool
is_negative (pos n) = false
is_negative (negsuc n) = true

-- The number where it is greater than 0, and else the other one.
abbrev pub positive_or : ℤ → ℕ → ℕ
positive_or (pos zero) other = other
positive_or (pos (suc n)) other = suc n
positive_or (negsuc n) other = other
