-- ===== src/Crc32/Detect.antt =====
-- What a checksum of crc32.c tells apart.
use chis_link.Common.{ℕ, bit_xor, ◌≡◌, ◌≢◌, sym, ◌∙◌, arith}
use chis_link.Common.{List, [], ◌∷◌, ◌++◌, IsByte, IsU32, All, All-append}
use chis_link.Common.Bits.Xor.{bit_xor-lt}
use chis_link.Crc32.{Globals, shift_bits, calculate}
use chis_link.Crc32.Laws.{shift_bits-IsU32, shift_bits-injective, bit_xor_cancel, bit_xor-injective}
use chis_link.Crc32.Reference.{
  IsValid, shift_bytes, reference, calculate-reference, shift_bytes-append,
}

next-IsU32 : (s b : ℕ) → IsU32 s → IsByte b → IsU32 (bit_xor s b)
next-IsU32 s b hs hb = bit_xor-lt 32 s b hs (omega arith)

shift_bytes-IsU32 : (s : ℕ) (xs : List ℕ) → IsU32 s → All IsByte xs → IsU32 (shift_bytes s xs)
unfolding shift_bytes
shift_bytes-IsU32 s [] hs h = hs
shift_bytes-IsU32 s (x ∷ xs) hs (hx, h) =
    shift_bytes-IsU32 (shift_bits 8 (bit_xor s x)) xs
      (shift_bits-IsU32 8 (bit_xor s x) (next-IsU32 s x hs hx)) h

-- Registers that differ stay different while the same bytes go in.
shift_bytes-injective :
    (s t : ℕ) (xs : List ℕ)
    → IsU32 s
    → IsU32 t
    → All IsByte xs
    → shift_bytes s xs ≡ shift_bytes t xs
    → s ≡ t
unfolding shift_bytes
shift_bytes-injective s t [] hs ht h e = e
shift_bytes-injective s t (x ∷ xs) hs ht (hx, h) e = bit_xor_cancel s t x (
    shift_bits-injective 8 (bit_xor s x) (bit_xor t x) (next-IsU32 s x hs hx) (next-IsU32 t x ht hx)
      (shift_bytes-injective (shift_bits 8 (bit_xor s x)) (shift_bits 8 (bit_xor t x)) xs
        (shift_bits-IsU32 8 (bit_xor s x) (next-IsU32 s x hs hx))
        (shift_bits-IsU32 8 (bit_xor t x) (next-IsU32 t x ht hx)) h e))

one_byte :
    (s a b : ℕ) (ys : List ℕ)
    → IsU32 s
    → IsByte a
    → IsByte b
    → All IsByte ys
    → shift_bytes s (a ∷ ys) ≡ shift_bytes s (b ∷ ys)
    → a ≡ b
unfolding shift_bytes
one_byte s a b ys hs ha hb h e = bit_xor-injective s a b (
    shift_bits-injective 8 (bit_xor s a) (bit_xor s b) (next-IsU32 s a hs ha) (next-IsU32 s b hs hb)
      (shift_bytes-injective _ _ ys (shift_bits-IsU32 8 (bit_xor s a) (next-IsU32 s a hs ha))
        (shift_bits-IsU32 8 (bit_xor s b) (next-IsU32 s b hs hb)) h e))

-- From valid static variables, two lists of bytes that differ in exactly one byte, at the same
-- place, have different checksums.
pub calculate_detects :
    (g : Globals) (xs ys : List ℕ) (a b : ℕ)
    → IsValid g
    → All IsByte xs
    → All IsByte ys
    → IsByte a
    → IsByte b
    → a ≢ b
    → (calculate g (xs ++ (a ∷ ys))).1 ≢ (calculate g (xs ++ (b ∷ ys))).1
unfolding reference
calculate_detects g xs ys a b v hx hy ha hb ne e = ne (
    one_byte (shift_bytes 0xffffffff xs) a b ys (shift_bytes-IsU32 0xffffffff xs (omega arith) hx)
      ha hb hy
      (sym (shift_bytes-append 0xffffffff xs (a ∷ ys))
        ∙ same
        ∙ shift_bytes-append 0xffffffff xs (b ∷ ys)))
  where
    same : shift_bytes 0xffffffff (xs ++ (a ∷ ys)) ≡ shift_bytes 0xffffffff (xs ++ (b ∷ ys))
    same = bit_xor_cancel _ _ 0xffffffff (
        sym (calculate-reference g (xs ++ (a ∷ ys)) v (All-append IsByte xs (a ∷ ys) hx (ha, hy)))
        ∙ e
        ∙ calculate-reference g (xs ++ (b ∷ ys)) v (All-append IsByte xs (b ∷ ys) hx (hb, hy)))
