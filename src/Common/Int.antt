-- ===== src/Common/Int.antt =====
-- The `int` results of the code: zero or a count on success, a negative number on an error.
use Prim.Native.Nat.{ℕ, zero, suc}
use mathlib.Core.Bool.{Bool, true, false}

-- `negsuc n` is -(n + 1).
pub data ℤ : Type 0 where
  pos : ℕ → ℤ
  negsuc : ℕ → ℤ

-- `ret < 0`
abbrev pub is_neg : ℤ → Bool
is_neg (pos n) = false
is_neg (negsuc n) = true

-- The integer -n, for an error number that the source writes as `-n`.
abbrev pub neg : ℕ → ℤ
neg n = elim n [ zero ↦ pos 0 | suc m ↦ negsuc m ]
