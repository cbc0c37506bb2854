-- ===== src/Crc32Chunks.antt =====
-- gba/sdk/src/crc32_chunks.c (with include/chislink/crc32_chunks.h): one checksum for each block of
-- `chunk_size` bytes of a byte stream.
pub mod Blocks
pub mod Stream
use chis_link.Common.{
  ℕ, zero, suc, ◌+◌, ◌-◌, ◌%◌, List, [], ◌∷◌, Bool, true, false, ◌||◌, ltb, leb, ◌==◌,
}
use chis_link.Common.{
  Option, none, some, if◌then◌else◌, set, length, take, drop, u32, sub32, ℤ, pos, neg, is_neg,
}
use chis_link.Crc32
use chis_link.Crc32.{Globals}

-- `cl_crc32_chunks_t`, with the checksum module's globals beside it. A NULL `values` is `[]`.
pub record Chunks : Type 0 where
  pub values : List ℕ
  pub capacity : ℕ
  pub count : ℕ
  pub chunk_size : ℕ
  pub chunk_bytes : ℕ
  pub total_bytes : ℕ
  pub current : ℕ
  pub globals : Globals

abbrev pub is_null : List ℕ → Bool
is_null [] = true
is_null (x ∷ xs) = false

-- `none` is the result -1, which leaves `*chunks` as it was.
unfoldable pub init : Globals → ℕ → List ℕ → ℕ → Option Chunks
init g chunk_size values capacity =
    let (g', current) = Crc32.init g in
    if chunk_size == 0 || is_null values || capacity == 0
    then none
    else some (record {
      values = values;
      capacity = capacity;
      count = 0;
      chunk_size = chunk_size;
      chunk_bytes = 0;
      total_bytes = 0;
      current = current;
      globals = g';
    })

unfoldable pub finish_current : Chunks → Chunks × ℤ
finish_current s =
    let (g', current) = Crc32.init s.globals in
    if leb s.capacity s.count then (s, neg 2) else (
      record s {
        values = set s.values s.count (Crc32.finalize s.current);
        count = u32 (s.count + 1);
        chunk_bytes = 0;
        current = current;
        globals = g';
      },
      pos 0,
    )

-- The number of bytes that one round of the loop takes.
unfoldable pub round_bytes : Chunks → List ℕ → ℕ
round_bytes s rest =
    let room = sub32 s.chunk_size s.chunk_bytes in
    if ltb (length rest) room then length rest else room

-- One round up to the test of `chunk_bytes`.
unfoldable pub absorb : Chunks → List ℕ → Chunks
absorb s bytes = record s {
  current = Crc32.update s.globals.table s.current bytes;
  chunk_bytes = u32 (s.chunk_bytes + length bytes);
  total_bytes = (s.total_bytes + length bytes) % 18446744073709551616;
}

-- The loop; the list is `bytes + consumed`. `none` means that the fuel ran out.
unfoldable pub update_loop : ℕ → Chunks → List ℕ → Option (Chunks × ℤ)
update_loop fuel s [] = some (s, pos 0)
update_loop zero s (byte ∷ rest) = none
update_loop (suc fuel) s (byte ∷ rest) =
    let n = round_bytes s (byte ∷ rest) in
    let s' = absorb s (take n (byte ∷ rest)) in
    let (t, ret) = finish_current s' in
    let go_on = update_loop fuel s' (drop n (byte ∷ rest)) in
    let go_on_next = update_loop fuel t (drop n (byte ∷ rest)) in
    if s'.chunk_bytes == s'.chunk_size
    then (if is_neg ret then some (t, ret) else go_on_next)
    else go_on

unfoldable pub update : Chunks → List ℕ → Option (Chunks × ℤ)
update s bytes =
    if s.chunk_size == 0 || is_null s.values
    then some (s, neg 1)
    else update_loop (length bytes) s bytes

unfoldable pub finish : Chunks → Chunks × ℤ
finish s =
    if s.chunk_size == 0 || is_null s.values
    then (s, neg 1)
    else if s.chunk_bytes == 0
    then (s, pos 0)
    else finish_current s
