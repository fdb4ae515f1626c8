-- ===== src/Prelude/Signed.antt =====
-- The C++ `int` of a return code: `negsuc n` is -(n + 1). The program tests signs, compares and
-- negates codes, and does no other arithmetic on them.
use Prim.Native.Nat.{ℕ, zero, suc}
use mathlib.Core.Bool.{Bool, true, false}

pub data ℤ : Type 0 where
  pos : ℕ → ℤ
  negsuc : ℕ → ℤ

-- `x < 0`
abbrev pub is_neg : ℤ → Bool
is_neg (pos n) = false
is_neg (negsuc n) = true

-- `x == 0`
abbrev pub is_zero : ℤ → Bool
is_zero (pos zero) = true
is_zero (pos (suc n)) = false
is_zero (negsuc n) = false

-- `-n` for a number n
abbrev pub neg : ℕ → ℤ
neg zero = pos zero
neg (suc n) = negsuc n
