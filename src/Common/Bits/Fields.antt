-- ===== src/Common/Bits/Fields.antt =====
-- Masks and fields of a word: `&` with a mask, `|` of fields that do not overlap.
use Prim.Native.Nat.{ℕ, zero, suc, ◌+◌, ◌-◌, ◌*◌, ◌/◌, ◌%◌, ◌^◌, ◌<◌, bit_and, bit_or}
use mathlib.Core.Path.{◌≡◌, refl, sym, ap}
use mathlib.Core.WellFounded
use native.Mathlib.Omega.{arith}
use native.Mathlib.Nat.{pow-suc, one-le-pow, mul-div_cancel, div-one, div-div-eq-div-mul}
use chis_link.Common.Order.{lt_wf}
use chis_link.Common.Bits.Digits.{bit_and_step, bit_or_step}

bit_or-zero : (a : ℕ) → bit_or a 0 ≡ a
bit_or-zero a = WellFounded.induction lt_wf {C = λ k. bit_or k 0 ≡ k} a halve
  where
    halve : (n : ℕ) → ((m : ℕ) → m < n → bit_or m 0 ≡ m) → bit_or n 0 ≡ n
    halve zero ih = refl
    halve (suc n) ih = omega (arith, bit_or_step (suc n) 0, ih (suc n / 2) (omega arith))

zero-bit_or : (b : ℕ) → bit_or 0 b ≡ b
zero-bit_or b = WellFounded.induction lt_wf {C = λ k. bit_or 0 k ≡ k} b halve
  where
    halve : (n : ℕ) → ((m : ℕ) → m < n → bit_or 0 m ≡ m) → bit_or 0 n ≡ n
    halve zero ih = refl
    halve (suc n) ih = omega (arith, bit_or_step 0 (suc n), ih (suc n / 2) (omega arith))

bit_and-zero : (a : ℕ) → bit_and a 0 ≡ 0
bit_and-zero a = WellFounded.induction lt_wf {C = λ k. bit_and k 0 ≡ 0} a halve
  where
    halve : (n : ℕ) → ((m : ℕ) → m < n → bit_and m 0 ≡ 0) → bit_and n 0 ≡ 0
    halve zero ih = refl
    halve (suc n) ih = omega (arith, bit_and_step (suc n) 0, ih (suc n / 2) (omega arith))

pub twice_shifted : (q k : ℕ) → q * 2 ^ suc k ≡ 2 * (q * 2 ^ k)
twice_shifted q k = omega (arith, ap (λ (t : ℕ). q * t) (pow-suc 2 k))

-- A field that is shifted by `k` and one of `k` bits lie side by side.
pub bit_or_side_by_side : (k q r : ℕ) → r < 2 ^ k → bit_or (q * 2 ^ k) r ≡ q * 2 ^ k + r
bit_or_side_by_side zero q r h = ground (arith, bit_or-zero q)
bit_or_side_by_side (suc k) q r h = ground (
  arith,
  bit_or_step (q * 2 ^ suc k) r,
  twice_shifted q k,
  bit_or_side_by_side k q (r / 2) (omega arith),
)

pub bit_or_comm : (a b : ℕ) → bit_or a b ≡ bit_or b a
bit_or_comm a = WellFounded.induction lt_wf {C = λ k. (b : ℕ) → bit_or k b ≡ bit_or b k} a halve
  where
    halve :
        (n : ℕ)
        → ((m : ℕ) → m < n → (b : ℕ) → bit_or m b ≡ bit_or b m)
        → (b : ℕ) → bit_or n b ≡ bit_or b n
    halve zero ih b = omega (arith, zero-bit_or b, bit_or-zero b)
    halve (suc n) ih b =
        omega (
          arith,
          bit_or_step (suc n) b,
          bit_or_step b (suc n),
          ih (suc n / 2) (omega arith) (b / 2),
        )

low_field : (k q r : ℕ) → r < 2 ^ k → bit_and (q * 2 ^ k + r) (2 ^ k - 1) ≡ r
low_field zero q r h = ground (arith, bit_and-zero (q * 1 + r))
low_field (suc k) q r h = ground (
  arith,
  bit_and_step (q * 2 ^ suc k + r) (2 ^ suc k - 1),
  twice_shifted q k,
  pow-suc 2 k,
  low_field k q (r / 2) (omega arith),
)

-- A mask of `k` low bits takes the remainder.
pub bit_and_low : (k a : ℕ) → bit_and a (2 ^ k - 1) ≡ a % 2 ^ k
bit_and_low k a = ground (arith, one-le-pow k 2, low_field k (a / 2 ^ k) (a % 2 ^ k))

pub div_twice : (a p : ℕ) → a / (2 * p) ≡ a / 2 / p
div_twice a p = sym (div-div-eq-div-mul a 2 p)

-- A mask that is shifted by `k` looks at the bits from `k` on.
pub bit_and_shifted : (k a m : ℕ) → bit_and a (m * 2 ^ k) ≡ bit_and (a / 2 ^ k) m * 2 ^ k
bit_and_shifted zero a m = ground (arith, div-one a)
bit_and_shifted (suc k) a m = ground (
  arith,
  bit_and_step a (m * 2 ^ suc k),
  twice_shifted m k,
  twice_shifted (bit_and (a / 2 ^ suc k) m) k,
  pow-suc 2 k,
  div_twice a (2 ^ k),
  bit_and_shifted k (a / 2) m,
)

-- The field of `n` bits that starts at bit `k`.
pub masked_field : (k n a : ℕ) → bit_and a ((2 ^ n - 1) * 2 ^ k) / 2 ^ k ≡ a / 2 ^ k % 2 ^ n
masked_field k n a = ground (
  arith,
  bit_and_shifted k a (2 ^ n - 1),
  bit_and_low n (a / 2 ^ k),
  one-le-pow k 2,
  mul-div_cancel (a / 2 ^ k % 2 ^ n) {n = 2 ^ k} (one-le-pow k 2 (omega arith)),
)
