-- ===== src/Common/Products.antt =====
-- Bounds on products, for the sizes of arrays of equal slots.
use Prim.Native.Nat.{ℕ, ◌+◌, ◌*◌, ◌≤◌, ◌<◌}
use native.Mathlib.Nat.{lt_of_le_of_lt, mul-le-mul}
use native.Mathlib.Omega.{arith}

-- A byte times a 16-bit number does not wrap 32 bits.
pub small_product : (a b : ℕ) → a < 256 → b < 65536 → a * b < 4294967296
small_product a b p q =
    lt_of_le_of_lt
      (mul-le-mul {n₁ = a} {m₁ = b} {n₂ = 255} {m₂ = 65535} (omega arith) (omega arith))
      (omega arith)

pub positive_product : (a b : ℕ) → 0 < a → 0 < b → 0 < a * b
positive_product a b p q = grind arith

pub product_lt : (a b c : ℕ) → a * c < b * c → a < b
product_lt a b c h = grind arith

-- Slot `i` of `count` slots of `size` bytes ends inside them.
pub slot_end : (i count size : ℕ) → i < count → i * size + size ≤ count * size
slot_end i count size h = grind arith
