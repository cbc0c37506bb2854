-- ===== src/GameDb/Order.antt =====
-- `memcmp` on the four bytes of a game code, as the order of numbers.
use chis_link.Common.{
  ℕ, zero, suc, ◌+◌, ◌*◌, ◌<◌, ◌≡◌, refl, arith, List, ltb, if◌then◌else◌, get_or, drop, All,
  All-drop, IsByte,
}
use chis_link.Common.{◌^◌, ◌∙◌, ap}
use mathlib.Core.Path.{ap₂}
use native.Mathlib.Numerals.{unary_clauses}
use chis_link.Common.Products.{slot_end}
use chis_link.Proto.Bytes.{get_or-IsByte}
use chis_link.GameDb.{Sign, less, equal, greater, memcmp}

-- The four bytes as a number, the first byte highest.
abbrev pub code_value : List ℕ → ℕ
code_value xs =
    get_or xs 0 0 * 16777216
    + get_or (drop 1 xs) 0 0 * 65536
    + get_or (drop 1 (drop 1 xs)) 0 0 * 256
    + get_or (drop 1 (drop 1 (drop 1 xs))) 0 0

abbrev pub sign : ℕ → ℕ → Sign
sign a b = if ltb a b then less else if ltb b a then greater else equal

-- One more digit in front.
digit :
    (a b v w p : ℕ)
    → v < p
    → w < p
    → (if ltb a b then less else if ltb b a then greater else sign v w)
      ≡ sign (a * p + v) (b * p + w)
digit a b v w p hv hw = ground (arith, slot_end a b p, slot_end b a p, same)
  where
    same : a ≡ b → a * p ≡ b * p
    same e = ap (λ t. t * p) e

-- The bytes from the front as a number below 256 ^ n.
abbrev value : List ℕ → ℕ → ℕ
value xs zero = 0
value xs (suc n) = get_or xs 0 0 * 256 ^ n + value (drop 1 xs) n

value_lt : (xs : List ℕ) (n : ℕ) → All IsByte xs → value xs n < 256 ^ n
value_lt xs zero h = omega arith
value_lt xs (suc n) h = omega (
  arith,
  slot_end (get_or xs 0 0) 256 (256 ^ n) (get_or-IsByte xs 0 h),
  value_lt (drop 1 xs) n (All-drop IsByte 1 xs h),
  power,
)
  where
    power : 256 ^ suc n ≡ 256 * 256 ^ n
    power = simp unary_clauses (omega arith)

memcmp_value_of :
    (xs ys : List ℕ) (n : ℕ)
    → All IsByte xs
    → All IsByte ys
    → memcmp xs ys n ≡ sign (value xs n) (value ys n)
unfolding memcmp
memcmp_value_of xs ys zero hx hy = refl
memcmp_value_of xs ys (suc n) hx hy =
    ap
      (λ r.
        if ltb (get_or xs 0 0) (get_or ys 0 0)
        then less
        else if ltb (get_or ys 0 0) (get_or xs 0 0)
        then greater
        else r)
      (memcmp_value_of (drop 1 xs) (drop 1 ys) n (All-drop IsByte 1 xs hx)
        (All-drop IsByte 1 ys hy))
    ∙ digit (get_or xs 0 0) (get_or ys 0 0) (value (drop 1 xs) n) (value (drop 1 ys) n) (256 ^ n)
        (value_lt (drop 1 xs) n (All-drop IsByte 1 xs hx))
        (value_lt (drop 1 ys) n (All-drop IsByte 1 ys hy))

value_four : (xs : List ℕ) → value xs 4 ≡ code_value xs
value_four xs = omega arith

-- On bytes, the comparison of the source is that of the numbers.
pub memcmp_value :
    (xs ys : List ℕ)
    → All IsByte xs
    → All IsByte ys
    → memcmp xs ys 4 ≡ sign (code_value xs) (code_value ys)
memcmp_value xs ys hx hy = memcmp_value_of xs ys 4 hx hy ∙ ap₂ sign (value_four xs) (value_four ys)
