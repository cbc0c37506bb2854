-- ===== src/StreamClient.antt =====
-- gba/sdk/src/stream_client.c: the commands that open, fill, drain and close a stream at the other end.
pub mod Answers
pub mod Control
pub mod Closing
pub mod Receive
pub mod Balance
pub mod Drain
pub mod Contents
pub mod Filling
pub mod Arriving
pub mod Delivery
pub mod Inflow
pub mod Arrivals
pub mod Growing
pub mod Reach
pub mod Seeking
pub mod Reading
use chis_link.Common.{
  ℕ, zero, suc, ◌+◌, ◌-◌, ◌*◌, ◌/◌, ◌%◌, ◌^◌, List, [], ◌∷◌, ◌++◌, Bool, true, false, not, ◌&&◌,
  ◌||◌, ltb, leb, ◌==◌, if◌then◌else◌, Option, none, some, take, drop, length, overwrite, replicate,
  u8, u32, ◌>>>◌, ℤ, pos, negsuc, neg, is_neg,
}
use chis_link.Proto.{Header, aligned_length, load_le32, store_le32}
use chis_link.Proto.Codes.{
  ch_stream, stream_open, stream_close, stream_poll, stream_credit, stream_seek, stream_recv,
  stream_send, stream_pump, stream_kind_file, stream_open_path_offset, stream_send_data_offset,
  stream_block_size, status_ok, status_bad_packet, status_timeout,
}
use chis_link.Client.{Peer, Client, xfer32, status_error, after_status}
use chis_link.Client.{error as state_error}
use chis_link.Wire.{
  Chunk, Response, got, failed, nop_word, no_bytes, command_chunks, read_payload, discard_payload,
}
use chis_link.Stream.{
  Stream, Slot, opened, closed, no_slots, capacity, free_count, can_receive, reset,
}
use chis_link.Stream

-- The client's answer to a command: its result, and `response` where the code sets it. On a failure of
-- the exchange the source leaves the variable as it was.
unfoldable pub answer_of : Client × Response → Client × ℤ × Option Header
answer_of (c, failed code) = (c, code, none)
answer_of (c, got h) =
    if not (h.imm == status_ok)
    then (record c { last_status = h.imm; state = after_status h.imm }, status_error h.imm, some h)
    else (c, pos 0, some h)

-- `stream_command`
unfoldable pub command : Peer → Client → ℕ → List Chunk → Client × ℤ × Option Header
command peer c opcode chunks = answer_of (command_chunks peer c ch_stream opcode chunks)

abbrev pub le32 : ℕ → List ℕ
le32 value = store_le32 no_bytes value 4

-- A request in an array of the caller, whose words are all written.
abbrev pub request : List ℕ → ℕ → Chunk
request bytes n = record { bytes = some bytes; length = n }

-- What the code does with the stream on a failure.
abbrev pub fail_stream : Stream → ℤ → Stream
fail_stream s code = record s { state = Stream.error; last_error = code }

abbrev pub bad_packet_error : ℤ
bad_packet_error = neg (status_bad_packet + 10)

-- Where a payload goes: a buffer or a `cl_payload_writer_t`, with the transport's own fast read for it. That
-- one sees and extends the log of the link.
pub record Target (X : Type 0) : Type 0 where
  pub store : ℕ → ℕ → ℕ → X → X
  pub fast : Option (X → ℕ → List ℕ → ℤ × X × List ℕ)

abbrev pub fast_payload_threshold : ℕ
fast_payload_threshold = 256

-- The loop of `stream_read_payload_words`; the second argument counts the words that are left.
unfoldable pub read_target_words :
    {X : Type 0} → Peer → ℕ → ℕ → ℕ → Target X → X → Client → Client × X
read_target_words peer zero offset length target x c = (c, x)
read_target_words peer (suc left) offset length target x c =
    let (word, c1) = xfer32 peer c nop_word in
    let valid = (if ltb 4 (length - offset) then 4 else length - offset) in
    read_target_words peer left (offset + 4) length target (target.store offset word valid x) c1

-- What a fast read leaves.
unfoldable pub after_fast : {X : Type 0} → Client → ℤ × X × List ℕ → Client × X × ℤ
after_fast c (ret, x, log) =
    let c1 = record c { sent = log } in
    if is_neg ret
    then (record c1 { state = state_error; last_status = status_timeout }, x, ret)
    else (c1, x, pos 0)

-- `stream_read_payload`, with `fast` the target's.
unfoldable pub read_target :
    {X : Type 0}
    → Peer
    → Target X
    → Option (X → ℕ → List ℕ → ℤ × X × List ℕ)
    → ℕ
    → X
    → Client
    → Client × X × ℤ
read_target peer target none length x c =
    let (c1, x1) = read_target_words peer (aligned_length length / 4) 0 length target x c in
    (c1, x1, pos 0)
read_target peer target (some fast) length x c =
    let (c1, x1) = read_target_words peer (aligned_length length / 4) 0 length target x c in
    if leb fast_payload_threshold length
    then after_fast c (fast x length c.sent)
    else (c1, x1, pos 0)

-- What a receiving call leaves; `out_length` is 0 where it is not set.
pub record Received (X : Type 0) : Type 0 where
  pub client : Client
  pub stream : Stream
  pub dst : X
  pub result : ℤ
  pub out_length : ℕ

abbrev pub recv_request : Stream → ℕ → List Chunk
recv_request s capacity = request (le32 s.stream_id ++ le32 capacity) 8 ∷ []

-- `stream_recv_payload` after the command. A result of 0 comes with the header.
unfoldable pub take_payload :
    {X : Type 0} → Peer → Stream → Target X → X → ℕ → Client × ℤ × Option Header → Received X
take_payload peer s target x capacity (c, ret, none) = record {
  client = c;
  stream = fail_stream s ret;
  dst = x;
  result = ret;
  out_length = 0;
}
take_payload peer s target x capacity (c, ret, some h) =
    let (c1, x1, ret1) =
      (if h.length == 0 then (c, x, pos 0) else read_target peer target target.fast h.length x c) in
    if is_neg ret
    then record { client = c; stream = fail_stream s ret; dst = x; result = ret; out_length = 0 }
    else if ltb capacity h.length
    then record {
      client = discard_payload peer c h.length;
      stream = record s { last_error = bad_packet_error };
      dst = x;
      result = neg 3;
      out_length = 0;
    }
    else if is_neg ret1
    then record {
      client = c1;
      stream = fail_stream s ret1;
      dst = x1;
      result = ret1;
      out_length = 0;
    }
    else record { client = c1; stream = s; dst = x1; result = pos 0; out_length = h.length }

unfoldable pub recv_payload : {X : Type 0} → Peer → Client → Stream → Target X → X → ℕ → Received X
recv_payload peer c s target x capacity =
    if s.stream_id == 0 || capacity == 0 || ltb s.slot_size capacity
    then record { client = c; stream = s; dst = x; result = neg 1; out_length = 0 }
    else take_payload peer s target x capacity
        (command peer c stream_recv (recv_request s capacity))

-- A stream with its client, and the bytes of the ring's buffer.
pub record Port : Type 0 where
  pub client : Client
  pub stream : Stream
  pub memory : List ℕ

abbrev pub put_bytes : ℕ → List ℕ → List ℕ → List ℕ
put_bytes at bytes memory = take at memory ++ overwrite bytes (drop at memory)

-- A buffer at the index `at` of the memory; the fast read is given where the buffer starts.
abbrev pub memory_target :
    Option (ℕ → List ℕ → ℕ → List ℕ → ℤ × List ℕ × List ℕ) → ℕ → Target (List ℕ)
memory_target fast at = record {
  store = λ offset word valid memory.
      take (at + offset) memory ++ store_le32 (drop (at + offset) memory) word valid;
  fast = elim fast [ none ↦ none | some f ↦ some (f at) ];
}

-- `cl_stream_recv_slot` after the payload: the commit.
unfoldable pub commit_received : Received (List ℕ) → Port × ℤ
commit_received r =
    let (s, ret) = Stream.producer_commit r.stream (r.out_length % 65536) in
    if is_neg r.result
    then (record { client = r.client; stream = r.stream; memory = r.dst }, r.result)
    else if r.out_length == 0
    then (record { client = r.client; stream = r.stream; memory = r.dst }, pos 0)
    else if is_neg ret
    then (record { client = r.client; stream = fail_stream s ret; memory = r.dst }, ret)
    else (record { client = r.client; stream = s; memory = r.dst }, pos r.out_length)

-- `config.read_payload`, if the transport has it.
abbrev pub FastRead : Type 0
FastRead = Option (ℕ → List ℕ → ℕ → List ℕ → ℤ × List ℕ × List ℕ)

unfoldable pub recv_slot : Peer → FastRead → Port → Port × ℤ
recv_slot peer fast p =
    let (span, ret) = Stream.producer_acquire p.stream in
    let filled =
      recv_payload peer p.client p.stream (memory_target fast (span.data_at - p.stream.buffer))
        p.memory span.capacity in
    if p.stream.stream_id == 0 || not (can_receive p.stream)
    then (p, neg 1)
    else if is_neg ret
    then (record p { stream = record p.stream { last_error = ret } }, ret)
    else if span.data_at == 0 || span.capacity == 0
    then (p, neg 2)
    else commit_received filled

-- `cl_stream_recv_into` and `cl_stream_recv_with_writer`
unfoldable pub recv_into : {X : Type 0} → Peer → Client → Stream → Target X → X → ℕ → Received X
recv_into peer c s target x length =
    let r = recv_payload peer c s target x length in
    if is_neg r.result then r else record r {
      stream = record r.stream { rx_offset = u32 (r.stream.rx_offset + r.out_length) };
    }

-- What a round of the reading loop finds: a view, or the end with a result.
pub data Found : Type 0 where
  found : Port → Stream.View → Found
  ended : Port → ℤ → Found

abbrev pub note_error : Port → ℤ → Port
note_error p code = record p { stream = record p.stream { last_error = code } }

unfoldable pub find_again : Port → Found
find_again p =
    let (view, ret) = Stream.consumer_peek p.stream in
    if is_neg ret then ended (note_error p ret) ret else found p view

abbrev pub is_empty_error : ℤ → Bool
is_empty_error ret = elim ret [ pos n ↦ false | negsuc n ↦ n == 2 ]

unfoldable pub find_view : Peer → FastRead → Port → Found
find_view peer fast p =
    let (view, ret) = Stream.consumer_peek p.stream in
    let (p1, received) = recv_slot peer fast p in
    if is_empty_error ret
    then (if is_neg received
        then ended (note_error p1 received) received
        else if elim received [ pos n ↦ n == 0 | negsuc n ↦ false ]
        then ended p1 (pos 0)
        else find_again p1)
    else if is_neg ret
    then ended (note_error p ret) ret
    else found p view

-- `view.data[0 .. take]`
abbrev pub view_bytes : Port → Stream.View → ℕ → List ℕ
view_bytes p view n = take n (drop (view.data_at - p.stream.buffer) p.memory)

-- What `stream_read_or_discard` leaves: the caller's `dst` is there unless it discards.
pub record Drained : Type 0 where
  pub port : Port
  pub dst : Option (List ℕ)
  pub result : ℤ
  pub out_length : ℕ

abbrev pub store_read : Option (List ℕ) → ℕ → List ℕ → Option (List ℕ)
store_read none at bytes = none
store_read (some dst) at bytes = some (put_bytes at bytes dst)

abbrev pub taken_bytes : ℕ → ℕ → Stream.View → ℕ
taken_bytes length out view = if ltb view.length (length - out) then view.length else length - out

-- A round of the loop after its search, with the rounds after it.
unfoldable pub take_round :
    (Option (List ℕ) → ℕ → Port → Option Drained) → Option (List ℕ) → ℕ → ℕ → Found → Option Drained
take_round goes_on dst length out (ended p ret) =
    some (record { port = p; dst = dst; result = ret; out_length = out })
take_round goes_on dst length out (found p view) =
    let n = taken_bytes length out view in
    let dst1 = store_read dst out (view_bytes p view n) in
    let (s, ret) = Stream.consumer_release_bytes p.stream (n % 65536) in
    let p1 = record p { stream = s } in
    if is_neg ret
    then some (record { port = note_error p1 ret; dst = dst1; result = ret; out_length = out })
    else goes_on dst1 (u32 (out + n)) p1

-- The loop; the first argument is fuel, and `none` means that it ran out.
unfoldable pub drain : ℕ → Peer → FastRead → Option (List ℕ) → ℕ → ℕ → Port → Option Drained
drain zero peer fast dst length out p =
    if ltb out length
    then none
    else some (record { port = p; dst = dst; result = pos 0; out_length = out })
drain (suc fuel) peer fast dst length out p =
    let goes_on : Option (List ℕ) → ℕ → Port → Option Drained =
      λ dst1 out1 p1. drain fuel peer fast dst1 length out1 p1 in
    if not (ltb out length)
    then some (record { port = p; dst = dst; result = pos 0; out_length = out })
    else take_round goes_on dst length out (find_view peer fast p)

-- The buffer that the loop copies to: none where it discards.
abbrev pub kept_dst : Bool → Option (List ℕ) → Option (List ℕ)
kept_dst discarding dst = if discarding then none else dst

abbrev pub is_null : Option (List ℕ) → Bool
is_null none = true
is_null (some bytes) = false

-- `stream_read_or_discard`. A round takes a byte at least, so as many rounds as bytes do.
unfoldable pub read_or_discard :
    Peer → FastRead → Port → Bool → Option (List ℕ) → ℕ → Option Drained
read_or_discard peer fast p discarding dst length =
    if p.stream.stream_id == 0 || (not discarding && (is_null dst && not (length == 0)))
    then some (record { port = p; dst = dst; result = neg 1; out_length = 0 })
    else drain length peer fast (kept_dst discarding dst) length 0 p

-- `cl_stream_read`
unfoldable pub read : Peer → FastRead → Port → Option (List ℕ) → ℕ → Option Drained
read peer fast p dst length = read_or_discard peer fast p false dst length

-- `cl_stream_discard`
unfoldable pub discard : Peer → FastRead → Port → ℕ → Option Drained
discard peer fast p length = read_or_discard peer fast p true none length

unfoldable pub read_exact : Peer → FastRead → Port → Option (List ℕ) → ℕ → Option (Drained × ℤ)
read_exact peer fast p dst length = elim (read peer fast p dst length) [
  | none ↦ none
  | some r ↦
      some
        (r, if is_neg r.result then r.result else if r.out_length == length then pos 0 else neg 3)
]
