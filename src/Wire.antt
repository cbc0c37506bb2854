-- ===== src/Wire.antt =====
-- gba/sdk/src/wire.c (with include/chislink/wire.h): command frames, responses and payloads over an
-- exchange of 32-bit words.
pub mod Packing
pub mod Reading
pub mod Command
pub mod Payload
use chis_link.Common.{
  ℕ, zero, suc, ◌+◌, ◌-◌, ◌/◌, List, [], ◌∷◌, ◌++◌, Bool, true, false, not, ◌&&◌, ◌||◌,
}
use chis_link.Common.{
  ltb, leb, ◌==◌, if◌then◌else◌, Option, none, some, get_or, set, take, drop, ℤ, pos, neg,
}
use chis_link.Proto.{
  Header, make_word, word_type, word_channel, word_opcode, word_imm, is_protocol_word,
}
use chis_link.Proto.{
  decode_header_words, encode_header_words, aligned_length, load_le32, store_le32,
}
use chis_link.Proto.Codes.{
  type_nop, type_command, type_response, type_ack, ch_control, ctrl_nop, flag_needs_ack,
  frame_max_payload_bytes,
}
use chis_link.Client.{Peer, Client, xfer32, send, next_seq, bad_packet, after_status}

-- `cl_wire_chunk_t`; a NULL `data` stands for zeros.
pub record Chunk : Type 0 where
  pub bytes : Option (List ℕ)
  pub length : ℕ

-- The frame's `*response`, or a negative result. On a failure the callers do not read `*response`.
pub data Response : Type 0 where
  got : Header → Response
  failed : ℤ → Response

abbrev pub nop_word : ℕ
nop_word = make_word type_nop ch_control ctrl_nop 0

-- The state of `wire_xfer_payload_chunks`: `pending`, `pending_len`, and the client.
pub record Packer : Type 0 where
  pub pending : List ℕ
  pub pending_len : ℕ
  pub client : Client

abbrev pub no_bytes : List ℕ
no_bytes = 0 ∷ 0 ∷ 0 ∷ 0 ∷ []

-- `data ? data[offset] : 0`
abbrev pub chunk_byte : Option (List ℕ) → ℕ → ℕ
chunk_byte none offset = 0
chunk_byte (some bytes) offset = get_or bytes offset 0

unfoldable pub push_byte : Peer → ℕ → Packer → Packer
push_byte peer byte p =
    let filled = set p.pending p.pending_len byte in
    if p.pending_len + 1 == 4
    then record {
      pending = no_bytes;
      pending_len = 0;
      client = send peer p.client (load_le32 filled 4);
    }
    else record p { pending = filled; pending_len = p.pending_len + 1 }

-- The loop over `offset`; the second argument counts the rounds that are left.
unfoldable pub push_bytes : Peer → ℕ → ℕ → Option (List ℕ) → Packer → Packer
push_bytes peer zero offset bytes p = p
push_bytes peer (suc left) offset bytes p =
    push_bytes peer left (offset + 1) bytes (push_byte peer (chunk_byte bytes offset) p)

unfoldable pub push_chunks : Peer → List Chunk → Packer → Packer
push_chunks peer [] p = p
push_chunks peer (chunk ∷ chunks) p =
    push_chunks peer chunks (push_bytes peer chunk.length 0 chunk.bytes p)

-- What is sent after the loops: the last word, if bytes are pending.
unfoldable pub push_rest : Peer → Packer → Client
push_rest peer p =
    if p.pending_len == 0 then p.client else send peer p.client (load_le32 p.pending p.pending_len)

unfoldable pub xfer_payload_chunks : Peer → Client → List Chunk → Client
xfer_payload_chunks peer c chunks =
    push_rest peer
      (push_chunks peer chunks (record { pending = no_bytes; pending_len = 0; client = c }))

-- The loop of `wire_payload_length`; `none` is the result -1.
unfoldable pub payload_length_from : ℕ → List Chunk → Option ℕ
payload_length_from total [] = some total
payload_length_from total (chunk ∷ chunks) =
    if ltb frame_max_payload_bytes chunk.length
      || ltb (frame_max_payload_bytes - chunk.length) total
    then none
    else payload_length_from (total + chunk.length) chunks

unfoldable pub payload_length : List Chunk → Option ℕ
payload_length chunks = payload_length_from 0 chunks

-- An acknowledgement carries its status in the command word alone.
unfoldable pub take_ack : ℕ → ℕ → ℕ → ℕ → Client → Client × Response
take_ack channel opcode seq first c =
    if not (word_channel first == channel) || not (word_opcode first == opcode)
    then (bad_packet c, failed (neg 2))
    else (
      record c { last_status = word_imm first; state = after_status (word_imm first) },
      got (record {
        type = word_type first;
        channel = word_channel first;
        opcode = word_opcode first;
        imm = word_imm first;
        length = 0;
        seq = seq;
        flags = 0;
        crc32 = 0;
      }),
    )

abbrev mismatch : ℕ → ℕ → ℕ → Header → Bool
mismatch channel opcode seq h =
    not (h.type == type_response)
    || not (h.channel == channel)
    || not (h.opcode == opcode)
    || not (h.seq == seq)

-- A response is a whole header: three more words follow the first.
unfoldable pub take_response : Peer → ℕ → ℕ → ℕ → ℕ → Client → Client × Response
take_response peer channel opcode seq first c =
    let (w1, c1) = xfer32 peer c nop_word in
    let (w2, c2) = xfer32 peer c1 nop_word in
    let (w3, c3) = xfer32 peer c2 nop_word in
    elim (decode_header_words (first, w1, w2, w3)) [
      | none ↦ (bad_packet c3, failed (neg 2))
      | some h ↦
          if mismatch channel opcode seq h
          then (bad_packet c3, failed (neg 2))
          else (record c3 { last_status = h.imm; state = after_status h.imm }, got h)
    ]

-- The loop over `skipped`; the second argument counts the rounds that are left.
unfoldable pub read_rounds : Peer → ℕ → ℕ → ℕ → ℕ → Client → Client × Response
read_rounds peer zero channel opcode seq c = (bad_packet c, failed (neg 2))
read_rounds peer (suc left) channel opcode seq c =
    let (first, c1) = xfer32 peer c nop_word in
    let go_on = read_rounds peer left channel opcode seq c1 in
    if not (is_protocol_word first) || word_type first == type_nop
    then go_on
    else if word_type first == type_ack
    then take_ack channel opcode seq first c1
    else if not (word_type first == type_response)
    then (bad_packet c1, failed (neg 2))
    else take_response peer channel opcode seq first c1

-- `for (skipped = 0; skipped <= 8; ++skipped)` makes nine rounds.
unfoldable pub read_response : Peer → Client → ℕ → ℕ → ℕ → Client × Response
read_response peer c channel opcode seq =
    if c.has_xfer32 then read_rounds peer 9 channel opcode seq c else (c, failed (neg 1))

abbrev pub send_header : Peer → Client → Header → Client
send_header peer c h =
    let (w0, w1, w2, w3) = encode_header_words h in
    send peer (send peer (send peer (send peer c w0) w1) w2) w3

abbrev pub command_header : ℕ → ℕ → ℕ → ℕ → Header
command_header channel opcode length seq = record {
  type = type_command;
  channel = channel;
  opcode = opcode;
  imm = 0;
  length = length;
  seq = seq;
  flags = flag_needs_ack;
  crc32 = 0;
}

-- `cl_wire_command_chunks`
unfoldable pub command_chunks : Peer → Client → ℕ → ℕ → List Chunk → Client × Response
command_chunks peer c channel opcode chunks =
    if not c.has_xfer32 then (c, failed (neg 1)) else elim (payload_length chunks) [
      | none ↦ (c, failed (neg 1))
      | some length ↦
          let (seq, c1) = next_seq c in
          let c2 = send_header peer c1 (command_header channel opcode length seq) in
          read_response peer (xfer_payload_chunks peer c2 chunks) channel opcode seq
    ]

-- The loop of `cl_wire_read_payload`; the second argument counts the words that are left. A NULL
-- `payload` is `none`.
unfoldable pub read_words : Peer → ℕ → ℕ → ℕ → Option (List ℕ) → Client → Client × Option (List ℕ)
read_words peer zero offset length payload c = (c, payload)
read_words peer (suc left) offset length payload c =
    let (word, c1) = xfer32 peer c nop_word in
    let stored = λ (buffer : List ℕ).
      take offset buffer ++ store_le32 (drop offset buffer) word (length - offset) in
    let payload' : Option (List ℕ) = elim payload [
      | none ↦ none
      | some buffer ↦ some (if ltb offset length then stored buffer else buffer)
    ] in
    read_words peer left (offset + 4) length payload' c1

-- The source calls the transport without a test for NULL here, which is undefined; the two go on as with one.
-- `cl_wire_read_payload`; `cl_wire_discard_payload` is the call with a NULL payload.
unfoldable pub read_payload : Peer → Client → Option (List ℕ) → ℕ → Client × Option (List ℕ)
read_payload peer c payload length = read_words peer (aligned_length length / 4) 0 length payload c

unfoldable pub discard_payload : Peer → Client → ℕ → Client
discard_payload peer c length = (read_payload peer c none length).0
