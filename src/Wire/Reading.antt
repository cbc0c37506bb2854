-- ===== src/Wire/Reading.antt =====
-- `cl_wire_read_response`: which answers are taken, and what they leave in the client.
use chis_link.Common.{ℕ, zero, suc, ◌+◌, ◌-◌, ◌≤◌, ◌≡◌, refl, ap, ◌∙◌, arith}
use chis_link.Common.{List, [], ◌∷◌, true, false, length, ◌⊎◌, ℤ, neg}
use chis_link.Proto.{Header, encode_header_words, word_type, is_protocol_word}
use chis_link.Proto.Frame.{IsValid, decode-encode, make_word_fields}
use chis_link.Proto.Codes.{type_nop, type_response, type_ack, status_bad_packet}
use chis_link.Client.{Peer, Client, error, xfer32, after_status}
use chis_link.Wire.{
  Response, got, failed, nop_word, take_ack, take_response, read_rounds, read_response,
}

-- The answer that a caller may use: its fields are those asked for, and the client holds its status. An
-- acknowledgement carries no number; the code fills in the one asked for.
abbrev pub Answers : ℕ → ℕ → ℕ → Header → Client → Type 0
Answers channel opcode seq h c =
    ((h.type ≡ type_response) ⊎ (h.type ≡ type_ack))
    × (h.channel ≡ channel)
    × (h.opcode ≡ opcode)
    × (h.seq ≡ seq)
    × (c.last_status ≡ h.imm)
    × (c.state ≡ after_status h.imm)

abbrev pub Fails : ℤ → Client → Type 0
Fails code c = (code ≡ neg 2) × (c.state ≡ error) × (c.last_status ≡ status_bad_packet)

abbrev pub IsOutcome : ℕ → ℕ → ℕ → Client × Response → Type 0
IsOutcome channel opcode seq (c, got h) = Answers channel opcode seq h c
IsOutcome channel opcode seq (c, failed code) = Fails code c

take_ack_lem :
    (channel opcode seq first : ℕ) (c : Client)
    → word_type first ≡ type_ack
    → IsOutcome channel opcode seq (take_ack channel opcode seq first c)
unfolding take_ack
take_ack_lem channel opcode seq first c h = ground arith

take_response_lem :
    (peer : Peer) (channel opcode seq first : ℕ) (c : Client)
    → IsOutcome channel opcode seq (take_response peer channel opcode seq first c)
unfolding take_response xfer32
take_response_lem peer channel opcode seq first c = ground arith

-- The same of the loop with any number of rounds left.
pub read_rounds-IsOutcome :
    (peer : Peer) (n channel opcode seq : ℕ) (c : Client)
    → IsOutcome channel opcode seq (read_rounds peer n channel opcode seq c)
unfolding read_rounds xfer32
read_rounds-IsOutcome peer zero channel opcode seq c = (refl, refl, refl)
read_rounds-IsOutcome peer (suc n) channel opcode seq c =
    let first = peer (nop_word ∷ c.sent) in
    let c1 = record c { sent = nop_word ∷ c.sent } in
    ground (
      arith,
      read_rounds-IsOutcome peer n channel opcode seq c1,
      take_ack_lem channel opcode seq first c1,
      take_response_lem peer channel opcode seq first c1,
    )

-- With a transport, whatever the other end sends, reading a response ends either with a header of
-- the type response or acknowledgement, the channel, the opcode and the number asked for, whose
-- status the client then holds (an acknowledgement carries no number, the code fills it in), or
-- with -2, BAD_PACKET and the error state.
pub read_response-IsOutcome :
    (peer : Peer) (c : Client) (channel opcode seq : ℕ)
    → c.has_xfer32 ≡ true
    → IsOutcome channel opcode seq (read_response peer c channel opcode seq)
unfolding read_response
read_response-IsOutcome peer c channel opcode seq h =
    ground (arith, read_rounds-IsOutcome peer 9 channel opcode seq c)

-- The log of `n` rounds with NOP words.
abbrev pub nops : ℕ → List ℕ → List ℕ
nops zero log = log
nops (suc n) log = nops n (nop_word ∷ log)

-- The other end has nothing to say for `n` rounds from `log` on.
abbrev pub Silent : Peer → ℕ → List ℕ → Type 0
Silent peer zero log = Unit {0}
Silent peer (suc n) log =
    ((is_protocol_word (peer (nop_word ∷ log)) ≡ false)
      ⊎ (word_type (peer (nop_word ∷ log)) ≡ type_nop))
    × Silent peer n (nop_word ∷ log)

-- A silent round is skipped.
skip_round :
    (peer : Peer) (n channel opcode seq : ℕ) (c : Client)
    → (is_protocol_word (peer (nop_word ∷ c.sent)) ≡ false)
      ⊎ (word_type (peer (nop_word ∷ c.sent)) ≡ type_nop)
    → read_rounds peer (suc n) channel opcode seq c
      ≡ read_rounds peer n channel opcode seq (record c { sent = nop_word ∷ c.sent })
unfolding read_rounds xfer32
skip_round peer n channel opcode seq c h = ground arith

skip_rounds :
    (peer : Peer) (k n channel opcode seq : ℕ) (c : Client)
    → Silent peer k c.sent
    → read_rounds peer (n + k) channel opcode seq c
      ≡ read_rounds peer n channel opcode seq (record c { sent = nops k c.sent })
skip_rounds peer zero n channel opcode seq c h =
    ap (λ m. read_rounds peer m channel opcode seq c) (omega arith)
skip_rounds peer (suc k) n channel opcode seq c h =
    ap (λ m. read_rounds peer m channel opcode seq c) (omega arith)
    ∙ skip_round peer (n + k) channel opcode seq c h.0
    ∙ skip_rounds peer k n channel opcode seq (record c { sent = nop_word ∷ c.sent }) h.1

-- The other end answers the next NOP words with `ws`.
abbrev pub Replies : Peer → List ℕ → List ℕ → Type 0
Replies peer log [] = Unit {0}
Replies peer log (w ∷ ws) = (peer (nop_word ∷ log) ≡ w) × Replies peer (nop_word ∷ log) ws

abbrev pub header_words : Header → List ℕ
header_words h = let (w0, w1, w2, w3) = encode_header_words h in w0 ∷ w1 ∷ w2 ∷ w3 ∷ []

take_answer :
    (peer : Peer) (n : ℕ) (c : Client) (h : Header)
    → IsValid h
    → h.type ≡ type_response
    → Replies peer c.sent (header_words h)
    → read_rounds peer (suc n) h.channel h.opcode h.seq c
      ≡ (record c { last_status = h.imm; state = after_status h.imm; sent = nops 4 c.sent }, got h)
unfolding read_rounds take_response xfer32 encode_header_words is_protocol_word
take_answer peer n c h v t r =
    let e = decode-encode h v in
    ground
      (arith, e, make_word_fields h.type h.channel h.opcode h.imm v.type v.channel v.opcode v.imm)

-- With a transport, a valid response header for the channel, opcode and number asked for is found
-- behind up to eight silent rounds: it comes back as it was encoded, the client holds its status,
-- and no word past the header is read.
pub read_response-answer :
    (peer : Peer) (c : Client) (k : ℕ) (h : Header)
    → c.has_xfer32 ≡ true
    → k ≤ 8
    → Silent peer k c.sent
    → IsValid h
    → h.type ≡ type_response
    → Replies peer (nops k c.sent) (header_words h)
    → read_response peer c h.channel h.opcode h.seq ≡ (
      record c { last_status = h.imm; state = after_status h.imm; sent = nops 4 (nops k c.sent) },
      got h,
    )
unfolding read_response
read_response-answer peer c k h hx hk hs v t r =
    ready
    ∙ ap (λ m. read_rounds peer m h.channel h.opcode h.seq c) (omega arith)
    ∙ skip_rounds peer k (suc (8 - k)) h.channel h.opcode h.seq c hs
    ∙ take_answer peer (8 - k) (record c { sent = nops k c.sent }) h v t r
  where
    ready :
        read_response peer c h.channel h.opcode h.seq
        ≡ read_rounds peer 9 h.channel h.opcode h.seq c
    ready = ground arith

-- Reading an answer sends NOP words only, at most twelve of them.
pub read_rounds-sent :
    (peer : Peer) (n channel opcode seq : ℕ) (c : Client)
    → length (read_rounds peer n channel opcode seq c).0.sent ≤ length c.sent + n + 3
unfolding read_rounds take_ack take_response xfer32
read_rounds-sent peer zero channel opcode seq c = omega arith
read_rounds-sent peer (suc n) channel opcode seq c =
    ground
      (arith, read_rounds-sent peer n channel opcode seq (record c { sent = nop_word ∷ c.sent }))
