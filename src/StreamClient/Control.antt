-- ===== src/StreamClient/Control.antt =====
-- gba/sdk/src/stream_client.c: opening, closing, polling, crediting, seeking, sending and pumping.
use chis_link.Common.{
  ℕ, ◌+◌, ◌-◌, ◌/◌, ◌^◌, List, [], ◌∷◌, ◌++◌, not, ◌&&◌, ◌||◌, ltb, ◌==◌, if◌then◌else◌, Option,
  none, some, drop, length, replicate, u8, u32, ℤ, pos, neg, is_neg,
}
use chis_link.Proto.{Header, load_le32}
use chis_link.Proto.Codes.{
  stream_open, stream_close, stream_poll, stream_credit, stream_seek, stream_send, stream_pump,
  stream_kind_file, stream_open_path_offset, stream_send_data_offset, stream_block_size,
}
use chis_link.Client.{Peer, Client}
use chis_link.Wire.{Chunk, read_payload, discard_payload}
use chis_link.Stream.{Stream, opened, closed, no_slots, capacity, free_count, reset}
use chis_link.Stream
use chis_link.StreamClient.{is_null, command, le32, request, fail_stream, bad_packet_error}

-- `response.length`. The callers below read it before they look at the result: where the exchange failed, the
-- variable holds what was on the stack, or what a foreign header left in it; `junk` stands for that.
abbrev pub length_or : ℕ → Option Header → ℕ
length_or junk none = junk
length_or junk (some h) = h.length

-- What the payload buffer holds that the source reads with `cl_wire_read_payload`.
abbrev pub payload_of : Client × Option (List ℕ) → List ℕ
payload_of (c, none) = []
payload_of (c, some bytes) = bytes

abbrev pub word_at : ℕ → List ℕ → ℕ
word_at at payload = load_le32 (drop at payload) 4

abbrev pub open_request : Stream → ℕ → List ℕ
open_request s kind =
    le32 kind ++ (le32 s.flags ++ (le32 s.slot_size ++ (le32 s.slot_count ++ le32 (capacity s))))

abbrev pub open_chunks : Stream → ℕ → List ℕ → List Chunk
open_chunks s kind target =
    request (open_request s kind) 20 ∷ request (target ++ (0 ∷ [])) (length target + 1) ∷ []

-- `cl_stream_open` after the command.
unfoldable pub take_opened : Peer → Stream → Client × ℤ × Option Header → Client × Stream × ℤ
take_opened peer s (c, ret, none) = (c, fail_stream s ret, ret)
take_opened peer s (c, ret, some h) =
    let read = read_payload peer c (some (replicate 16 0)) 16 in
    let payload = payload_of read in
    let id = u8 (word_at 0 payload) in
    if is_neg ret
    then (c, fail_stream s ret, ret)
    else if not (h.length == 16)
    then (discard_payload peer c h.length, fail_stream s bad_packet_error, neg 3)
    else (
      read.0,
      record s {
        stream_id = id;
        remote_size_low = word_at 4 payload;
        remote_size_high = word_at 8 payload;
        rx_offset = 0;
        tx_offset = 0;
        last_error = pos 0;
        state = if id == 0 then Stream.error else opened;
      },
      if id == 0 then neg 4 else pos 0,
    )

-- A NULL `target` is `none`; the characters are those before the final zero.
unfoldable pub open_stream : Peer → Client → Stream → ℕ → Option (List ℕ) → Client × Stream × ℤ
open_stream peer c s kind none = (c, s, neg 1)
open_stream peer c s kind (some target) =
    let fresh = reset s in
    let answer =
      take_opened peer fresh (command peer c stream_open (open_chunks fresh kind target)) in
    if length target == 0
      || (s.buffer == 0 || (no_slots s.slots || (s.slot_count == 0 || s.slot_size == 0)))
    then (c, s, neg 1)
    else if not (s.stream_id == 0)
    then (c, s, neg 5)
    else if ltb stream_block_size (stream_open_path_offset + (length target + 1))
    then (c, s, neg 2)
    else answer

abbrev pub subscribe_file : Peer → Client → Stream → Option (List ℕ) → Client × Stream × ℤ
subscribe_file peer c s path = open_stream peer c s stream_kind_file path

-- The source has no test for a NULL transport here, whose call is undefined; these words then go on as with one.
-- `if (response.length) cl_wire_discard_payload(client, response.length)`
abbrev pub discard_answer : Peer → ℕ → Client → Client
discard_answer peer n c = if not (n == 0) then discard_payload peer c n else c

-- How `cl_stream_close` and `cl_stream_pump` end.
unfoldable pub take_closed : Peer → ℕ → Stream → Client × ℤ × Option Header → Client × Stream × ℤ
take_closed peer junk s (c, ret, h) =
    let c1 = discard_answer peer (length_or junk h) c in
    if is_neg ret
    then (c1, fail_stream s ret, ret)
    else (c1, record s { stream_id = 0; state = closed }, pos 0)

unfoldable pub close : Peer → ℕ → Client → Stream → Client × Stream × ℤ
close peer junk c s =
    if s.stream_id == 0
    then (c, s, neg 1)
    else take_closed peer junk s (command peer c stream_close (request (le32 s.stream_id) 4 ∷ []))

unfoldable pub pump : Peer → ℕ → Client → Stream → Client × Stream × ℤ
pump peer junk c s =
    if s.stream_id == 0
    then (c, s, neg 1)
    else take_closed peer junk s (command peer c stream_pump (request (le32 s.stream_id) 4 ∷ []))

-- `cl_stream_remote_status_t`
pub record RemoteStatus : Type 0 where
  pub available : ℕ
  pub offset : ℕ
  pub flags : ℕ
  pub last_error : ℕ

-- `(int)` of a 32-bit number.
abbrev pub to_int : ℕ → ℤ
to_int n = if ltb n 2147483648 then pos n else neg (4294967296 - n)

-- `cl_stream_poll` after the command; `*out_status` where it is set.
unfoldable pub take_status :
    Peer → Stream → Client × ℤ × Option Header → Client × Stream × ℤ × Option RemoteStatus
take_status peer s (c, ret, none) = (c, fail_stream s ret, ret, none)
take_status peer s (c, ret, some h) =
    let read = read_payload peer c (some (replicate 16 0)) 16 in
    let payload = payload_of read in
    if is_neg ret
    then (c, fail_stream s ret, ret, none)
    else if not (h.length == 16)
    then (discard_payload peer c h.length, record s { last_error = bad_packet_error }, neg 2, none)
    else (
      read.0,
      record s { last_error = to_int (word_at 12 payload) },
      pos 0,
      some (record {
        available = word_at 0 payload;
        offset = word_at 4 payload;
        flags = word_at 8 payload;
        last_error = word_at 12 payload;
      }),
    )

unfoldable pub poll : Peer → Client → Stream → Client × Stream × ℤ × Option RemoteStatus
poll peer c s =
    if s.stream_id == 0
    then (c, s, neg 1, none)
    else take_status peer s (command peer c stream_poll (request (le32 s.stream_id) 4 ∷ []))

-- How `cl_stream_credit` and `cl_stream_seek` end; the stream of a success is given.
unfoldable pub take_done :
    Peer → ℕ → Stream → Stream → Client × ℤ × Option Header → Client × Stream × ℤ
take_done peer junk s s' (c, ret, h) =
    let c1 = discard_answer peer (length_or junk h) c in
    if is_neg ret then (c1, fail_stream s ret, ret) else (c1, s', pos 0)

unfoldable pub credit : Peer → ℕ → Client → Stream → ℕ → Client × Stream × ℤ
credit peer junk c s consumed_bytes =
    let bytes = le32 s.stream_id ++ (le32 consumed_bytes ++ le32 (free_count s)) in
    if s.stream_id == 0
    then (c, s, neg 1)
    else take_done peer junk s s (command peer c stream_credit (request bytes 12 ∷ []))

unfoldable pub seek : Peer → ℕ → Client → Stream → ℕ → Client × Stream × ℤ
seek peer junk c s offset =
    let bytes = le32 s.stream_id ++ (le32 (u32 offset) ++ le32 (u32 (offset / 2 ^ 32))) in
    let moved = record (reset s) {
      stream_id = s.stream_id;
      rx_offset = u32 offset;
      state = opened;
    } in
    if s.stream_id == 0
    then (c, s, neg 1)
    else take_done peer junk s moved (command peer c stream_seek (request bytes 12 ∷ []))

-- `cl_stream_send` after the command.
unfoldable pub take_written : Peer → Stream → Client × ℤ × Option Header → Client × Stream × ℤ
take_written peer s (c, ret, none) = (c, fail_stream s ret, ret)
take_written peer s (c, ret, some h) =
    let read = read_payload peer c (some (replicate 4 0)) 4 in
    let written = word_at 0 (payload_of read) in
    if is_neg ret
    then (c, fail_stream s ret, ret)
    else if not (h.length == 4)
    then (discard_payload peer c h.length, record s { last_error = bad_packet_error }, neg 2)
    else (read.0, record s { tx_offset = u32 (s.tx_offset + written) }, to_int written)

unfoldable pub send : Peer → Client → Stream → Option (List ℕ) → ℕ → Client × Stream × ℤ
send peer c s bytes n =
    let chunks = request (le32 s.stream_id) 4 ∷ record { bytes = bytes; length = n } ∷ [] in
    if s.stream_id == 0
      || ((is_null bytes && not (n == 0)) || ltb (stream_block_size - stream_send_data_offset) n)
    then (c, s, neg 1)
    else take_written peer s (command peer c stream_send chunks)
