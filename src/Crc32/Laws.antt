-- ===== src/Crc32/Laws.antt =====
-- The shift register of crc32.c: it is linear over exclusive or, and reversible on 32 bits.
use chis_link.Common.{
  ℕ, zero, suc, ◌+◌, ◌*◌, ◌/◌, ◌%◌, ◌^◌, ◌<◌, bit_xor, ◌≡◌, refl, sym, ap, ◌∙◌, arith,
}
use chis_link.Common.{◌==◌, if◌then◌else◌, IsU32}
use chis_link.Common.Bits.Fields.{bit_and_low, twice_shifted}
use chis_link.Common.Bits.Xor.{
  half-bit_xor, parity-bit_xor, bit_xor-zero, zero-bit_xor, bit_xor_comm, bit_xor_assoc,
  bit_xor_self, bit_xor-lt, bit_xor-shift,
}
use chis_link.Crc32.{polynomial, shift_bit, shift_bits}

-- The polynomial if the bit is set.
abbrev selected : ℕ → ℕ
selected bit = if bit == 0 then 0 else polynomial

shift_bit_value : (v : ℕ) → shift_bit v ≡ bit_xor (v / 2) (selected (v % 2))
unfolding shift_bit
shift_bit_value v = ground (arith, bit_and_low 1 v)

interchange :
    (a b c d : ℕ) → bit_xor (bit_xor a b) (bit_xor c d) ≡ bit_xor (bit_xor a c) (bit_xor b d)
interchange a b c d = cc (
  bit_xor_assoc a b (bit_xor c d),
  bit_xor_assoc b c d,
  bit_xor_comm b c,
  bit_xor_assoc c b d,
  bit_xor_assoc a c (bit_xor b d),
)

selected_sum :
    (x y : ℕ) → x < 2 → y < 2 → selected ((x + y) % 2) ≡ bit_xor (selected x) (selected y)
selected_sum zero zero p q = refl
selected_sum zero (suc zero) p q = refl
selected_sum (suc zero) zero p q = refl
selected_sum (suc zero) (suc zero) p q = refl
selected_sum (suc (suc x)) y p q = absurd (omega arith)
selected_sum x (suc (suc y)) p q = absurd (omega arith)

shift_bit-bit_xor : (a b : ℕ) → shift_bit (bit_xor a b) ≡ bit_xor (shift_bit a) (shift_bit b)
shift_bit-bit_xor a b = cc (
  shift_bit_value (bit_xor a b),
  shift_bit_value a,
  shift_bit_value b,
  half-bit_xor a b,
  parity-bit_xor a b,
  selected_sum (a % 2) (b % 2) (omega arith) (omega arith),
  interchange (a / 2) (selected (a % 2)) (b / 2) (selected (b % 2)),
)

-- The register is linear: it may be run on two parts of a word by themselves.
pub shift_bits-bit_xor :
    (n a b : ℕ) → shift_bits n (bit_xor a b) ≡ bit_xor (shift_bits n a) (shift_bits n b)
unfolding shift_bits
shift_bits-bit_xor zero a b = refl
shift_bits-bit_xor (suc n) a b =
    ap (shift_bits n) (shift_bit-bit_xor a b) ∙ shift_bits-bit_xor n (shift_bit a) (shift_bit b)

shift_bit_even : (m : ℕ) → shift_bit (2 * m) ≡ m
shift_bit_even m = ground (arith, shift_bit_value (2 * m), bit_xor-zero m)

-- Bits above the register's reach move down unchanged.
pub shift_bits_high : (n m : ℕ) → shift_bits n (m * 2 ^ n) ≡ m
unfolding shift_bits
shift_bits_high zero m = omega arith
shift_bits_high (suc n) m =
    ap (shift_bits n) (ap shift_bit (twice_shifted m n) ∙ shift_bit_even (m * 2 ^ n))
    ∙ shift_bits_high n m

shift_bit-IsU32 : (v : ℕ) → IsU32 v → IsU32 (shift_bit v)
shift_bit-IsU32 v h =
    rw (shift_bit_value v) (bit_xor-lt 32 (v / 2) (selected (v % 2)) (omega arith) (ground arith))

pub shift_bits-IsU32 : (n v : ℕ) → IsU32 v → IsU32 (shift_bits n v)
unfolding shift_bits
shift_bits-IsU32 zero v h = h
shift_bits-IsU32 (suc n) v h = shift_bits-IsU32 n (shift_bit v) (shift_bit-IsU32 v h)

selected_top : (x : ℕ) → x < 2 → selected x / 2 ^ 31 ≡ x
selected_top zero h = refl
selected_top (suc zero) h = refl
selected_top (suc (suc x)) h = absurd (omega arith)

-- The polynomial has the top bit, so that the bit that is shifted out shows there.
shift_bit_top : (v : ℕ) → IsU32 v → shift_bit v / 2 ^ 31 ≡ v % 2
shift_bit_top v h =
    rw (shift_bit_value v, bit_xor-shift 31 (v / 2) (selected (v % 2)))
      (ground (arith, selected_top (v % 2), zero-bit_xor (v % 2)))

pub bit_xor_cancel : (a b c : ℕ) → bit_xor a c ≡ bit_xor b c → a ≡ b
bit_xor_cancel a b c e =
    cc (bit_xor_assoc a c c, bit_xor_assoc b c c, bit_xor_self c, bit_xor-zero a, bit_xor-zero b)

shift_bit-injective : (a b : ℕ) → IsU32 a → IsU32 b → shift_bit a ≡ shift_bit b → a ≡ b
shift_bit-injective a b ha hb e =
    let low : a % 2 ≡ b % 2 =
      sym (shift_bit_top a ha) ∙ ap (λ t. t / 2 ^ 31) e ∙ shift_bit_top b hb in
    let same : bit_xor (a / 2) (selected (b % 2)) ≡ bit_xor (b / 2) (selected (b % 2)) =
      cc (shift_bit_value a, shift_bit_value b) in
    omega (arith, bit_xor_cancel (a / 2) (b / 2) (selected (b % 2)) same)

-- No two words of 32 bits are shifted to the same word.
pub shift_bits-injective : (n a b : ℕ) → IsU32 a → IsU32 b → shift_bits n a ≡ shift_bits n b → a ≡ b
unfolding shift_bits
shift_bits-injective zero a b ha hb e = e
shift_bits-injective (suc n) a b ha hb e = shift_bit-injective a b ha hb (
    shift_bits-injective n (shift_bit a) (shift_bit b) (shift_bit-IsU32 a ha) (shift_bit-IsU32 b hb)
      e)

pub bit_xor-injective : (s a b : ℕ) → bit_xor s a ≡ bit_xor s b → a ≡ b
bit_xor-injective s a b e = bit_xor_cancel a b s (bit_xor_comm a s ∙ e ∙ bit_xor_comm s b)
