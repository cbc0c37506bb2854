-- ===== src/RamMap.antt =====
-- gba/sdk/src/ram_map.c: the key-value store that the other end keeps, over the commands of wire.c. Of
-- `cl_ram_map_t` there is only the client that it points to; a NULL pointer to bytes is `none`.
pub mod Answers
pub mod Requests
use chis_link.Common.{
  ℕ, List, [], ◌∷◌, ◌++◌, Bool, true, false, not, ◌&&◌, ◌||◌, ltb, ◌==◌, if◌then◌else◌, Option,
  none, some, take, drop, bit_and, ℤ, pos, neg, is_neg,
}
use chis_link.Proto.{Header, store_le32}
use chis_link.Proto.Codes.{
  ch_ram_map, ram_map_put, ram_map_get, ram_map_remove, ram_map_clear, status_ok, cap_ram_map,
  ram_map_key_max_bytes, ram_map_value_max_bytes,
}
use chis_link.Client.{Peer, Client, status_error}
use chis_link.Wire.{
  Chunk, Response, got, failed, no_bytes, command_chunks, read_payload, discard_payload,
}

unfoldable pub validate_map : Client → ℤ
validate_map c =
    if not c.has_xfer32
    then neg 1
    else if not (bit_and c.caps cap_ram_map == 0)
    then pos 0
    else neg 4

abbrev pub is_null : Option (List ℕ) → Bool
is_null none = true
is_null (some bytes) = false

unfoldable pub validate_key : Option (List ℕ) → ℕ → ℤ
validate_key key key_length =
    if not (is_null key)
      && (not (key_length == 0)
          && (ltb key_length ram_map_key_max_bytes || key_length == ram_map_key_max_bytes))
    then pos 0
    else neg 1

-- The fixed part of a request: the key's length, and for `put` also the value's. The arrays start out
-- unset in the source; all their bytes are written.
abbrev pub key_fixed : ℕ → List ℕ
key_fixed key_length = store_le32 no_bytes key_length 4

abbrev pub put_fixed : ℕ → ℕ → List ℕ
put_fixed key_length value_length =
    let fixed = store_le32 (no_bytes ++ no_bytes) key_length 4 in
    take 4 fixed ++ store_le32 (drop 4 fixed) value_length 4

abbrev pub put_chunks : Option (List ℕ) → ℕ → Option (List ℕ) → ℕ → List Chunk
put_chunks key key_length value value_length =
    record { bytes = some (put_fixed key_length value_length); length = 8 }
    ∷ record { bytes = key; length = key_length }
    ∷ record { bytes = value; length = value_length }
    ∷ []

abbrev pub key_chunks : Option (List ℕ) → ℕ → List Chunk
key_chunks key key_length =
    record { bytes = some (key_fixed key_length); length = 4 }
    ∷ record { bytes = key; length = key_length }
    ∷ []

-- How `put`, `remove` and `clear` end: an answer with a payload is refused.
unfoldable pub settle : Peer → Client × Response → Client × ℤ
settle peer (c, failed code) = (c, code)
settle peer (c, got h) =
    if not (h.length == 0)
    then (discard_payload peer c h.length, neg 2)
    else (c, status_error h.imm)

unfoldable pub put : Peer → Client → Option (List ℕ) → ℕ → Option (List ℕ) → ℕ → Client × ℤ
put peer c key key_length value value_length =
    let ret = validate_map c in
    if is_neg ret
      || is_neg (validate_key key key_length)
      || (not (value_length == 0) && is_null value)
      || ltb ram_map_value_max_bytes value_length
    then (c, if is_neg ret then ret else neg 1)
    else settle peer (
        command_chunks peer c ch_ram_map ram_map_put (put_chunks key key_length value value_length))

unfoldable pub remove : Peer → Client → Option (List ℕ) → ℕ → Client × ℤ
remove peer c key key_length =
    let ret = validate_map c in
    if is_neg ret || is_neg (validate_key key key_length)
    then (c, if is_neg ret then ret else neg 1)
    else settle peer (command_chunks peer c ch_ram_map ram_map_remove (key_chunks key key_length))

unfoldable pub clear : Peer → Client → Client × ℤ
clear peer c =
    let ret = validate_map c in
    if is_neg ret then (c, ret) else settle peer (command_chunks peer c ch_ram_map ram_map_clear [])

-- What `cl_ram_map_get` leaves: the client, the result, the caller's buffer and its `*out_value_length`.
pub record Fetched : Type 0 where
  pub client : Client
  pub result : ℤ
  pub value : Option (List ℕ)
  pub value_length : Option ℕ

-- How `get` ends; `*out_value_length` is 0 until the value is read.
unfoldable pub fetch : Peer → Option (List ℕ) → ℕ → Client × Response → Fetched
fetch peer value value_capacity (c, failed code) = record {
  client = c;
  result = code;
  value = value;
  value_length = some 0;
}
fetch peer value value_capacity (c, got h) =
    if not (h.imm == status_ok)
    then record {
      client = if not (h.length == 0) then discard_payload peer c h.length else c;
      result = status_error h.imm;
      value = value;
      value_length = some 0;
    }
    else if ltb value_capacity h.length || ltb ram_map_value_max_bytes h.length
    then record {
      client = discard_payload peer c h.length;
      result = neg 2;
      value = value;
      value_length = some 0;
    }
    else let (c', value') = read_payload peer c value h.length in
      record { client = c'; result = pos 0; value = value'; value_length = some h.length }

abbrev pub clear_length : Option ℕ → Option ℕ
clear_length none = none
clear_length (some n) = some 0

abbrev pub no_length : Option ℕ → Bool
no_length none = true
no_length (some n) = false

-- `out_value_length` is `none` when the caller passes NULL.
unfoldable pub get : Peer → Client → Option (List ℕ) → ℕ → Option (List ℕ) → ℕ → Option ℕ → Fetched
get peer c key key_length value value_capacity out_value_length =
    let ret = validate_map c in
    if is_neg ret
      || is_neg (validate_key key key_length)
      || no_length out_value_length
      || (not (value_capacity == 0) && is_null value)
    then record {
      client = c;
      result = if is_neg ret then ret else neg 1;
      value = value;
      value_length = clear_length out_value_length;
    }
    else fetch peer value value_capacity
        (command_chunks peer c ch_ram_map ram_map_get (key_chunks key key_length))
