-- ===== src/Wire/Command.antt =====
-- `cl_wire_command_chunks`: the frame that goes out, and the payloads that are refused.
use chis_link.Common.{ℕ, ◌+◌, ◌≤◌, ◌<◌, ◌≡◌, refl, ap, arith}
use chis_link.Common.{
  List, [], ◌∷◌, true, false, none, some, ltb, if◌then◌else◌, All, IsByte, ◌⊎◌, inl, inr, neg,
}
use chis_link.Proto.{encode_header_words}
use chis_link.Proto.Codes.{frame_max_payload_bytes}
use chis_link.Client.{Peer, Client, next_seq}
use chis_link.Wire.{
  Chunk, failed, payload_length_from, payload_length, read_response, send_header, command_header,
  command_chunks,
}
use chis_link.Wire.Packing.{
  all_bytes, words_of, send_all, total_length, xfer_payload_chunks-send_all,
}

payload_length_from_value :
    (total : ℕ) (chunks : List Chunk)
    → total ≤ frame_max_payload_bytes
    → payload_length_from total chunks ≡ (
        if ltb frame_max_payload_bytes (total + total_length chunks)
        then none
        else some (total + total_length chunks))
unfolding payload_length_from
payload_length_from_value total [] h = ground arith
payload_length_from_value total (chunk ∷ chunks) h =
    ground (arith, payload_length_from_value (total + chunk.length) chunks)

-- The payload length is the sum of the chunk lengths, without wrap-around, and it is refused exactly when
-- it is above the frame's limit.
pub payload_length_value :
    (chunks : List Chunk)
    → payload_length chunks ≡ (
        if ltb frame_max_payload_bytes (total_length chunks)
        then none
        else some (total_length chunks))
unfolding payload_length
payload_length_value chunks = ground (arith, payload_length_from_value 0 chunks)

-- The words of a command frame: its header, then its payload.
abbrev pub frame_words : ℕ → ℕ → ℕ → List Chunk → List ℕ
frame_words channel opcode seq chunks =
    let (w0, w1, w2, w3) =
      encode_header_words (command_header channel opcode (total_length chunks) seq) in
    w0 ∷ w1 ∷ w2 ∷ w3 ∷ words_of (all_bytes chunks)

pub command_chunks-frame :
    (peer : Peer) (c : Client) (channel opcode : ℕ) (chunks : List Chunk)
    → c.has_xfer32 ≡ true
    → total_length chunks ≤ frame_max_payload_bytes
    → All IsByte (all_bytes chunks)
    → command_chunks peer c channel opcode chunks ≡ (
        let (seq, c1) = next_seq c in
        read_response peer
          (send_all peer c1 (frame_words channel opcode seq chunks))
          channel
          opcode
          seq)
unfolding command_chunks
command_chunks-frame peer c channel opcode chunks hx hl hb =
    simp (hx, payload_length_value chunks, fits)
      (ap (λ d. read_response peer d channel opcode (next_seq c).0)
        (xfer_payload_chunks-send_all peer
          (send_header peer (next_seq c).1
            (command_header channel opcode (total_length chunks) (next_seq c).0))
          chunks hb))
  where
    fits : ltb frame_max_payload_bytes (total_length chunks) ≡ false
    fits = ground arith

-- Without a transport, or with a payload above the frame's limit, a command fails with -1, sends
-- nothing and changes no state.
pub command_chunks_refused :
    (peer : Peer) (c : Client) (channel opcode : ℕ) (chunks : List Chunk)
    → (c.has_xfer32 ≡ false) ⊎ (frame_max_payload_bytes < total_length chunks)
    → command_chunks peer c channel opcode chunks ≡ (c, failed (neg 1))
unfolding command_chunks
command_chunks_refused peer c channel opcode chunks (inl e) = rw e refl
command_chunks_refused peer c channel opcode chunks (inr l) =
    simp (payload_length_value chunks, over) (ground arith)
  where
    over : ltb frame_max_payload_bytes (total_length chunks) ≡ true
    over = ground arith
