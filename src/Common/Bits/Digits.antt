-- ===== src/Common/Bits/Digits.antt =====
-- The native bit operations stand for a recursion on binary digits that is bounded by its first
-- argument. With the bound dropped, each satisfies one equation for the lowest digit.
use Prim.Native.Nat.{ℕ, zero, suc, ◌+◌, ◌*◌, ◌/◌, ◌%◌, ◌≤◌, ◌<◌, min, max, digits}
use Prim.Native.Nat.{
  bit_and, bit_or, bit_xor, differ, bit_and-bitwise, bit_or-bitwise, bit_xor-bitwise,
}
use mathlib.Core.Path.{◌≡◌, refl}
use native.Mathlib.Omega.{arith}

module _ (end : ℕ → ℕ) (digit : ℕ → ℕ → ℕ) where
  bound_irrelevant :
      (k l : ℕ) (x y : ℕ) → x ≤ k → x ≤ l → digits end digit k x y ≡ digits end digit l x y
  bound_irrelevant zero zero x y hk hl = refl
  bound_irrelevant zero (suc l) zero y hk hl = refl
  bound_irrelevant zero (suc l) (suc x) y hk hl = absurd (omega arith)
  bound_irrelevant (suc k) zero zero y hk hl = refl
  bound_irrelevant (suc k) zero (suc x) y hk hl = absurd (omega arith)
  bound_irrelevant (suc k) (suc l) zero y hk hl = refl
  bound_irrelevant (suc k) (suc l) (suc x) y hk hl =
      omega (arith, bound_irrelevant k l (suc x / 2) (y / 2) (omega arith) (omega arith))

  lowest_digit :
      (x y : ℕ)
      → digits end digit (suc x) (suc x) y
        ≡ digits end digit (suc x / 2) (suc x / 2) (y / 2) * 2 + digit (suc x % 2) (y % 2)
  lowest_digit x y =
      omega (arith, bound_irrelevant x (suc x / 2) (suc x / 2) (y / 2) (omega arith) (omega arith))

pub bit_and_step : (x y : ℕ) → bit_and x y ≡ bit_and (x / 2) (y / 2) * 2 + min (x % 2) (y % 2)
bit_and_step zero y = simp bit_and-bitwise (omega arith)
bit_and_step (suc x) y = simp bit_and-bitwise (lowest_digit (λ _. 0) min x y)

pub bit_or_step : (x y : ℕ) → bit_or x y ≡ bit_or (x / 2) (y / 2) * 2 + max (x % 2) (y % 2)
bit_or_step zero y = simp bit_or-bitwise (omega arith)
bit_or_step (suc x) y = simp bit_or-bitwise (lowest_digit (λ t. t) max x y)

differ_of_digits : (x y : ℕ) → x < 2 → y < 2 → differ x y ≡ (x + y) % 2
differ_of_digits zero y p q = omega arith
differ_of_digits (suc zero) zero p q = refl
differ_of_digits (suc zero) (suc zero) p q = refl
differ_of_digits (suc zero) (suc (suc y)) p q = absurd (omega arith)
differ_of_digits (suc (suc x)) y p q = absurd (omega arith)

pub bit_xor_step : (a b : ℕ) → bit_xor a b ≡ bit_xor (a / 2) (b / 2) * 2 + (a % 2 + b % 2) % 2
bit_xor_step zero b = simp bit_xor-bitwise (omega arith)
bit_xor_step (suc a) b =
    simp bit_xor-bitwise (omega (arith, lowest_digit (λ y. y) differ a b, digit_sum))
  where
    digit_sum : differ (suc a % 2) (b % 2) ≡ (suc a % 2 + b % 2) % 2
    digit_sum = differ_of_digits (suc a % 2) (b % 2) (omega arith) (omega arith)
