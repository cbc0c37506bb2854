-- ===== src/Crc32/Reference.antt =====
-- The table-driven routine against the bit-by-bit definition of CRC-32.
use chis_link.Common.{
  ℕ, zero, suc, ◌+◌, ◌*◌, ◌/◌, ◌%◌, ◌^◌, ◌≤◌, ◌<◌, bit_xor, ◌≡◌, refl, ap, ◌∙◌, arith,
}
use chis_link.Common.{
  List, [], ◌∷◌, ◌++◌, true, Bool-cases, inl, inr, IsByte, All, get_or, set, length, length-set,
  get_or-set_self, get_or-set_ne,
}
use native.Mathlib.Decide.{dec_lt}
use chis_link.Common.Bits.Fields.{bit_and_low}
use chis_link.Common.Bits.Xor.{bit_xor-shift, bit_xor-zero, bit_xor_comm, bit_xor_side_by_side}
use chis_link.Crc32.{
  Globals, shift_bits, fill_table, prepare_table, init, update_byte, update, finalize, calculate,
}
use chis_link.Crc32.Laws.{shift_bits-bit_xor, shift_bits_high}

-- Each byte goes into the register's low end, and eight bits are shifted out.
unfoldable pub shift_bytes : ℕ → List ℕ → ℕ
shift_bytes state [] = state
shift_bytes state (byte ∷ bytes) = shift_bytes (shift_bits 8 (bit_xor state byte)) bytes

-- The register starts with all ones, and its complement is the checksum.
unfoldable pub reference : List ℕ → ℕ
reference bytes = bit_xor (shift_bytes 0xffffffff bytes) 0xffffffff

-- Every entry is what eight rounds of the register make of its index.
abbrev pub IsTable : List ℕ → Type 0
IsTable table = (i : ℕ) → i < 256 → get_or table i 0 ≡ shift_bits 8 i

-- What the two static variables satisfy from program start on.
pub record IsValid (g : Globals) : Type 0 where
  pub room : length g.table ≡ 256
  pub filled : g.ready ≡ true → IsTable g.table

length-fill_table : (left i : ℕ) (t : List ℕ) → length (fill_table left i t) ≡ length t
unfolding fill_table
length-fill_table zero i t = refl
length-fill_table (suc left) i t =
    length-fill_table left (i + 1) (set t i (shift_bits 8 i)) ∙ length-set t i (shift_bits 8 i)

fill_table_below :
    (left i : ℕ) (t : List ℕ) (j : ℕ) → j < i → get_or (fill_table left i t) j 0 ≡ get_or t j 0
unfolding fill_table
fill_table_below zero i t j h = refl
fill_table_below (suc left) i t j h =
    fill_table_below left (i + 1) (set t i (shift_bits 8 i)) j (omega arith)
    ∙ get_or-set_ne t (shift_bits 8 i) 0 (omega arith)

fill_table_entry :
    (left i : ℕ) (t : List ℕ) (j : ℕ)
    → i + left ≤ length t
    → i ≤ j
    → j < i + left
    → get_or (fill_table left i t) j 0 ≡ shift_bits 8 j
unfolding fill_table
fill_table_entry zero i t j room lo hi = absurd (omega arith)
fill_table_entry (suc left) i t j room lo hi = elim (dec_lt i j) [
  | yes p ↦
      fill_table_entry left (i + 1) (set t i (shift_bits 8 i)) j
        (omega (arith, length-set t i (shift_bits 8 i))) (omega arith) (omega arith)
  | no p ↦
      fill_table_below left (i + 1) (set t i (shift_bits 8 i)) j (omega arith)
      ∙ (let e : j ≡ i = omega arith in rw e (get_or-set_self t i (shift_bits 8 i) 0 (omega arith)))
]

prepare_table-IsTable : (g : Globals) → IsValid g → IsTable (prepare_table g).table
unfolding prepare_table
prepare_table-IsTable g v i h = elim (Bool-cases g.ready) [
  | inl e ↦ rw e (v.filled e i h)
  | inr e ↦ rw e (fill_table_entry 256 0 g.table i (omega (arith, v.room)) (omega arith) h)
]

update_byte_value :
    (table : List ℕ) (state byte : ℕ)
    → IsTable table
    → IsByte byte
    → update_byte table state byte ≡ shift_bits 8 (bit_xor state byte)
unfolding update_byte
update_byte_value table state byte t h =
    let x = bit_xor state byte in
    let high = x / 2 ^ 8 in
    let low = x % 2 ^ 8 in
    let parts : x ≡ bit_xor (high * 2 ^ 8) low =
      omega (arith, bit_xor_side_by_side 8 high low (omega arith)) in
    let kept : high ≡ state / 2 ^ 8 =
      ground (arith, bit_xor-shift 8 state byte, bit_xor-zero (state / 2 ^ 8)) in
    let halves : shift_bits 8 x ≡ bit_xor high (shift_bits 8 low) =
      ap (shift_bits 8) parts
      ∙ shift_bits-bit_xor 8 (high * 2 ^ 8) low
      ∙ ap (λ t. bit_xor t (shift_bits 8 low)) (shift_bits_high 8 high) in
    cc (bit_and_low 8 x, t low (omega arith), halves, kept, bit_xor_comm high (shift_bits 8 low))

pub update-shift_bytes :
    (table : List ℕ) (state : ℕ) (bytes : List ℕ)
    → IsTable table
    → All IsByte bytes
    → update table state bytes ≡ shift_bytes state bytes
unfolding update shift_bytes
update-shift_bytes table state [] t h = refl
update-shift_bytes table state (byte ∷ bytes) t (hb, hbs) =
    update-shift_bytes table (update_byte table state byte) bytes t hbs
    ∙ ap (λ s. shift_bytes s bytes) (update_byte_value table state byte t hb)

-- `prepare_table` keeps the table valid and leaves it ready.
pub prepare_table-IsValid :
    (g : Globals) → IsValid g → IsValid (prepare_table g) × ((prepare_table g).ready ≡ true)
unfolding prepare_table
prepare_table-IsValid g v =
    (record { room = size; filled = λ e. prepare_table-IsTable g v }, set_ready)
  where
    size : length (prepare_table g).table ≡ 256
    size = ground (arith, length-fill_table 256 0 g.table, v.room)

    set_ready : (prepare_table g).ready ≡ true
    set_ready = ground arith

-- From valid static variables, whether or not the table is filled yet, the table-driven checksum
-- of a list of bytes is the bit-by-bit one.
pub calculate-reference :
    (g : Globals) (bytes : List ℕ)
    → IsValid g
    → All IsByte bytes
    → (calculate g bytes).1 ≡ reference bytes
unfolding calculate init finalize reference
calculate-reference g bytes v h =
    ap (λ s. bit_xor s 0xffffffff)
      (update-shift_bytes (prepare_table g).table 0xffffffff bytes (prepare_table-IsTable g v) h)

-- Updating by two pieces in turn is updating by both at once.
pub update-append :
    (table : List ℕ) (state : ℕ) (xs ys : List ℕ)
    → update table state (xs ++ ys) ≡ update table (update table state xs) ys
unfolding update
update-append table state [] ys = refl
update-append table state (x ∷ xs) ys = update-append table (update_byte table state x) xs ys

pub shift_bytes-append :
    (s : ℕ) (xs ys : List ℕ) → shift_bytes s (xs ++ ys) ≡ shift_bytes (shift_bytes s xs) ys
unfolding shift_bytes
shift_bytes-append s [] ys = refl
shift_bytes-append s (x ∷ xs) ys = shift_bytes-append (shift_bits 8 (bit_xor s x)) xs ys

-- Once the table is ready, a new checksum leaves the globals alone.
pub init_ready : (g : Globals) → g.ready ≡ true → init g ≡ (g, 0xffffffff)
unfolding init prepare_table
init_ready g e = rw e
