-- ===== src/Crc32.antt =====
-- common/chislink_proto/src/crc32.c (with include/chislink/crc32.h): the table-driven CRC-32.
pub mod Laws
pub mod Reference
pub mod Detect
use chis_link.Common.{ℕ, zero, suc, ◌+◌, ◌/◌, bit_and, bit_xor, List, [], ◌∷◌, Bool, true, false}
use chis_link.Common.{◌==◌, if◌then◌else◌, get_or, set, ◌>>>◌}

abbrev pub polynomial : ℕ
polynomial = 0xedb88320

-- The file's two static variables.
pub record Globals : Type 0 where
  pub table : List ℕ
  pub ready : Bool

-- One round of the inner loop: `value & 1u` selects the polynomial.
unfoldable pub shift_bit : ℕ → ℕ
shift_bit value = bit_xor (value >>> 1) (if bit_and value 1 == 0 then 0 else polynomial)

unfoldable pub shift_bits : ℕ → ℕ → ℕ
shift_bits zero value = value
shift_bits (suc bits) value = shift_bits bits (shift_bit value)

-- The outer loop over `i`; the first argument counts the entries that are left to fill.
unfoldable pub fill_table : ℕ → ℕ → List ℕ → List ℕ
fill_table zero i table = table
fill_table (suc left) i table = fill_table left (i + 1) (set table i (shift_bits 8 i))

unfoldable pub prepare_table : Globals → Globals
prepare_table g = if g.ready then g else record { table = fill_table 256 0 g.table; ready = true }

-- `cl_crc32_init`: the globals and the new `crc->state`.
unfoldable pub init : Globals → Globals × ℕ
init g = (prepare_table g, 0xffffffff)

-- One round of the loop in `cl_crc32_update`.
unfoldable pub update_byte : List ℕ → ℕ → ℕ → ℕ
update_byte table state byte =
    bit_xor (get_or table (bit_and (bit_xor state byte) 0xff) 0) (state >>> 8)

-- `cl_crc32_update`; the list is `data[0 .. length)`.
unfoldable pub update : List ℕ → ℕ → List ℕ → ℕ
update table state [] = state
update table state (byte ∷ bytes) = update table (update_byte table state byte) bytes

-- `~state` on 32 bits.
unfoldable pub finalize : ℕ → ℕ
finalize state = bit_xor state 0xffffffff

unfoldable pub calculate : Globals → List ℕ → Globals × ℕ
calculate g bytes = let (g', state) = init g in (g', finalize (update g'.table state bytes))
