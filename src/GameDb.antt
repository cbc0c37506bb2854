-- ===== src/GameDb.antt =====
-- common/chislink_proto/src/gamedb.c: the table from game codes to save types.
pub mod Order
pub mod Search
use chis_link.Common.{
  ℕ, zero, suc, ◌+◌, ◌-◌, ◌*◌, ◌/◌, ◌%◌, ◌^◌, bit_or, List, Bool, true, false, not, ◌&&◌, ltb, ◌==◌,
  if◌then◌else◌, get_or, drop, u32, ◌<<<◌, ◌>>>◌, ℤ, pos, neg,
}

-- `CL_GAME_SAVE_*`
abbrev pub save_none : ℕ
save_none = 0xff

abbrev pub save_sram : ℕ
save_sram = 0

abbrev pub save_eeprom : ℕ
save_eeprom = 1

abbrev pub save_flash : ℕ
save_flash = 2

-- `cl_game_save_info_t`
pub record SaveInfo : Type 0 where
  pub type : ℕ
  pub size : ℕ

unfoldable pub load_le32 : List ℕ → ℕ
load_le32 src =
    bit_or (bit_or (bit_or (get_or src 0 0) (get_or src 1 0 <<< 8)) (get_or src 2 0 <<< 16))
      (get_or src 3 0 <<< 24)

-- The `switch` over the code.
unfoldable pub save_type_from_short_code : ℕ → SaveInfo
save_type_from_short_code code =
    if code == 0
    then record { type = save_none; size = 0 }
    else if code == 1
    then record { type = save_eeprom; size = 512 }
    else if code == 2
    then record { type = save_eeprom; size = 8192 }
    else if code == 3
    then record { type = save_sram; size = 32768 }
    else if code == 4
    then record { type = save_flash; size = 65536 }
    else if code == 5
    then record { type = save_flash; size = 131072 }
    else if code == 6
    then record { type = save_sram; size = 1048576 }
    else if code == 7
    then record { type = save_sram; size = 65536 }
    else if code == 8
    then record { type = save_sram; size = 131072 }
    else record { type = save_none; size = 0 }

-- `*out_record_size`, or a negative result.
pub data RecordSize : Type 0 where
  sized : ℕ → RecordSize
  failed : ℤ → RecordSize

unfoldable pub record_size : ℕ → RecordSize
record_size file_size =
    if ltb file_size 5
    then failed (neg 1)
    else if file_size % 5 == 0
    then sized 5
    else if file_size % 9 == 0
    then sized 9
    else failed (neg 2)

-- The result and `*out_info`.
unfoldable pub decode_record : List ℕ → ℕ → SaveInfo → ℤ × SaveInfo
decode_record entry size out_info =
    if not (size == 5) && not (size == 9)
    then (neg 1, out_info)
    else let info = save_type_from_short_code (get_or entry 4 0) in
      (pos 0, if size == 9 then record info { size = load_le32 (drop 5 entry) } else info)

-- The sign of the result of `memcmp`.
pub data Sign : Type 0 where
  less equal greater : Sign

unfoldable pub memcmp : List ℕ → List ℕ → ℕ → Sign
memcmp xs ys zero = equal
memcmp xs ys (suc n) =
    let rest = memcmp (drop 1 xs) (drop 1 ys) n in
    if ltb (get_or xs 0 0) (get_or ys 0 0)
    then less
    else if ltb (get_or ys 0 0) (get_or xs 0 0)
    then greater
    else rest

-- `records + mid * record_size`
abbrev pub record_at : List ℕ → ℕ → ℕ → List ℕ
record_at records size mid = drop (u32 (mid * size)) records

abbrev pub is_less : Sign → Bool
is_less less = true
is_less equal = false
is_less greater = false

abbrev pub is_equal : Sign → Bool
is_equal less = false
is_equal equal = true
is_equal greater = false

-- The `while` loop; the first argument is fuel.
unfoldable pub search_loop : ℕ → List ℕ → ℕ → List ℕ → SaveInfo → ℕ → ℕ → ℤ × SaveInfo
search_loop zero records size game_code info left right = (neg 3, info)
search_loop (suc fuel) records size game_code info left right =
    let mid = u32 (left + ((right - left) >>> 1)) in
    let cmp = memcmp (record_at records size mid) game_code 4 in
    let rest =
      search_loop fuel records size game_code info (if is_less cmp then u32 (mid + 1) else left)
        (if is_less cmp then right else mid) in
    if not (ltb left right)
    then (neg 3, info)
    else if is_equal cmp
    then decode_record (record_at records size mid) size info
    else rest

-- `out_info` as it is set before the search.
abbrev pub no_save : SaveInfo
no_save = record { type = save_none; size = 0 }

abbrev pub search_sized : List ℕ → ℕ → List ℕ → RecordSize → ℤ × SaveInfo
search_sized records file_size game_code (failed code) = (code, no_save)
search_sized records file_size game_code (sized size) =
    search_loop (file_size / size + 1) records size game_code no_save 0 (file_size / size)

unfoldable pub search_records : List ℕ → ℕ → List ℕ → ℤ × SaveInfo
search_records records file_size game_code =
    search_sized records file_size game_code (record_size file_size)
