-- ===== src/Common/Bits/Xor.antt =====
-- Exclusive or: a commutative group in which every number is its own inverse, digit by digit.
use Prim.Native.Nat.{ℕ, zero, suc, ◌+◌, ◌*◌, ◌/◌, ◌%◌, ◌^◌, ◌<◌, bit_xor}
use mathlib.Core.Path.{◌≡◌, refl}
use mathlib.Core.WellFounded
use native.Mathlib.Omega.{arith}
use native.Mathlib.Nat.{pow-suc, div-one}
use chis_link.Common.Order.{lt_wf}
use chis_link.Common.Bits.Digits.{bit_xor_step}
use chis_link.Common.Bits.Fields.{twice_shifted, div_twice}

-- The bit operations act on each digit by itself.
pub half-bit_xor : (a b : ℕ) → bit_xor a b / 2 ≡ bit_xor (a / 2) (b / 2)
half-bit_xor a b = omega (arith, bit_xor_step a b)

pub parity-bit_xor : (a b : ℕ) → bit_xor a b % 2 ≡ (a % 2 + b % 2) % 2
parity-bit_xor a b = omega (arith, bit_xor_step a b)

pub zero-bit_xor : (b : ℕ) → bit_xor 0 b ≡ b
zero-bit_xor b = WellFounded.induction lt_wf {C = λ k. bit_xor 0 k ≡ k} b halve
  where
    halve : (n : ℕ) → ((m : ℕ) → m < n → bit_xor 0 m ≡ m) → bit_xor 0 n ≡ n
    halve zero ih = refl
    halve (suc n) ih = omega (arith, bit_xor_step 0 (suc n), ih (suc n / 2) (omega arith))

pub bit_xor-zero : (a : ℕ) → bit_xor a 0 ≡ a
bit_xor-zero a = WellFounded.induction lt_wf {C = λ k. bit_xor k 0 ≡ k} a halve
  where
    halve : (n : ℕ) → ((m : ℕ) → m < n → bit_xor m 0 ≡ m) → bit_xor n 0 ≡ n
    halve zero ih = refl
    halve (suc n) ih = omega (arith, bit_xor_step (suc n) 0, ih (suc n / 2) (omega arith))

pub bit_xor_comm : (a b : ℕ) → bit_xor a b ≡ bit_xor b a
bit_xor_comm a = WellFounded.induction lt_wf {C = λ k. (b : ℕ) → bit_xor k b ≡ bit_xor b k} a halve
  where
    halve :
        (n : ℕ)
        → ((m : ℕ) → m < n → (b : ℕ) → bit_xor m b ≡ bit_xor b m)
        → (b : ℕ) → bit_xor n b ≡ bit_xor b n
    halve zero ih b = omega (arith, zero-bit_xor b, bit_xor-zero b)
    halve (suc n) ih b = omega (
      arith,
      bit_xor_step (suc n) b,
      bit_xor_step b (suc n),
      ih (suc n / 2) (omega arith) (b / 2),
    )

bit_xor_assoc_step :
    (a b c : ℕ)
    → bit_xor (bit_xor (a / 2) (b / 2)) (c / 2) ≡ bit_xor (a / 2) (bit_xor (b / 2) (c / 2))
    → bit_xor (bit_xor a b) c ≡ bit_xor a (bit_xor b c)
bit_xor_assoc_step a b c ih = ground (
  arith,
  bit_xor_step (bit_xor a b) c,
  bit_xor_step a (bit_xor b c),
  half-bit_xor a b,
  half-bit_xor b c,
  parity-bit_xor a b,
  parity-bit_xor b c,
)

pub bit_xor_assoc : (a b c : ℕ) → bit_xor (bit_xor a b) c ≡ bit_xor a (bit_xor b c)
bit_xor_assoc a =
    WellFounded.induction lt_wf
      {C = λ k. (b c : ℕ) → bit_xor (bit_xor k b) c ≡ bit_xor k (bit_xor b c)} a halve
  where
    halve :
        (n : ℕ)
        → ((m : ℕ) → m < n → (b c : ℕ) → bit_xor (bit_xor m b) c ≡ bit_xor m (bit_xor b c))
        → (b c : ℕ) → bit_xor (bit_xor n b) c ≡ bit_xor n (bit_xor b c)
    halve zero ih b c = ground (arith, zero-bit_xor b, zero-bit_xor (bit_xor b c))
    halve (suc n) ih b c =
        bit_xor_assoc_step (suc n) b c (ih (suc n / 2) (omega arith) (b / 2) (c / 2))

pub bit_xor_self : (a : ℕ) → bit_xor a a ≡ 0
bit_xor_self a = WellFounded.induction lt_wf {C = λ k. bit_xor k k ≡ 0} a halve
  where
    halve : (n : ℕ) → ((m : ℕ) → m < n → bit_xor m m ≡ 0) → bit_xor n n ≡ 0
    halve zero ih = refl
    halve (suc n) ih = omega (arith, bit_xor_step (suc n) (suc n), ih (suc n / 2) (omega arith))

pub bit_xor-lt : (k a b : ℕ) → a < 2 ^ k → b < 2 ^ k → bit_xor a b < 2 ^ k
bit_xor-lt zero a b p q =
    let p' : a ≡ 0 = omega arith in let q' : b ≡ 0 = omega arith in rw (p', q') (omega arith)
bit_xor-lt (suc k) a b p q = omega (
  arith,
  bit_xor_step a b,
  pow-suc 2 k,
  bit_xor-lt k (a / 2) (b / 2) (omega (arith, pow-suc 2 k)) (omega (arith, pow-suc 2 k)),
)

-- Fields that do not overlap are joined by exclusive or as by addition.
pub bit_xor_side_by_side : (k q r : ℕ) → r < 2 ^ k → bit_xor (q * 2 ^ k) r ≡ q * 2 ^ k + r
bit_xor_side_by_side zero q r h = ground (arith, bit_xor-zero q)
bit_xor_side_by_side (suc k) q r h = ground (
  arith,
  bit_xor_step (q * 2 ^ suc k) r,
  twice_shifted q k,
  bit_xor_side_by_side k q (r / 2) (omega arith),
)

-- A shift to the right goes through exclusive or.
pub bit_xor-shift : (k a b : ℕ) → bit_xor a b / 2 ^ k ≡ bit_xor (a / 2 ^ k) (b / 2 ^ k)
bit_xor-shift zero a b = ground (arith, div-one a, div-one b, div-one (bit_xor a b))
bit_xor-shift (suc k) a b = ground (
  arith,
  half-bit_xor a b,
  pow-suc 2 k,
  div_twice a (2 ^ k),
  div_twice b (2 ^ k),
  div_twice (bit_xor a b) (2 ^ k),
  bit_xor-shift k (a / 2) (b / 2),
)
