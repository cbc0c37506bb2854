-- ===== src/StreamClient/Answers.antt =====
-- What a stream command hands to the code that reads its response.
use chis_link.Common.{
  ℕ, ◌≡◌, ◌⊎◌, refl, ap, arith, List, true, not, if_elim, Option, none, some, ℤ, pos, neg, is_neg,
}
use chis_link.Proto.{Header}
use chis_link.Proto.Codes.{ch_stream, status_ok}
use chis_link.Client.{Peer, Client, next_seq, status_error}
use chis_link.Wire.{
  Chunk, Response, got, failed, payload_length, send_header, command_header, xfer_payload_chunks,
  read_rounds, read_response, command_chunks,
}
use chis_link.Wire.Reading.{IsOutcome, read_rounds-IsOutcome}
use chis_link.StreamClient.{answer_of, command}

-- A failure of the exchange has a negative result.
abbrev FailsBelow : Client × Response → Type 0
FailsBelow (c, failed code) = is_neg code ≡ true
FailsBelow (c, got h) = Unit {0}

outcome_below :
    (channel opcode seq : ℕ) (r : Client × Response) → IsOutcome channel opcode seq r → FailsBelow r
outcome_below channel opcode seq (c, failed code) o = ap is_neg o.0
outcome_below channel opcode seq (c, got h) o = tt

read_response_below :
    (peer : Peer) (c : Client) (channel opcode seq : ℕ)
    → FailsBelow (read_response peer c channel opcode seq)
unfolding read_response
read_response_below peer c channel opcode seq =
    if_elim FailsBelow c.has_xfer32 _ _
      (λ _.
        outcome_below channel opcode seq (read_rounds peer 9 channel opcode seq c)
          (read_rounds-IsOutcome peer 9 channel opcode seq c))
      (λ _. refl)

command_chunks_below :
    (peer : Peer) (c : Client) (channel opcode : ℕ) (chunks : List Chunk)
    → FailsBelow (command_chunks peer c channel opcode chunks)
unfolding command_chunks
command_chunks_below peer c channel opcode chunks =
    if_elim FailsBelow (not c.has_xfer32) _ _ (λ _. refl) (λ _. sent (payload_length chunks))
  where
    sent :
        (length : Option ℕ)
        → FailsBelow (elim length [
          | none ↦ (c, failed (neg 1))
          | some n ↦
              read_response peer
                (xfer_payload_chunks peer
                  (send_header peer (next_seq c).1 (command_header channel opcode n (next_seq c).0))
                  chunks)
                channel
                opcode
                (next_seq c).0
        ])
    sent none = refl
    sent (some n) = read_response_below peer _ channel opcode _

-- The result is 0 with the header of a response whose status is OK, or negative.
abbrev pub IsAnswer : Client × ℤ × Option Header → Type 0
IsAnswer (c, ret, none) = is_neg ret ≡ true
IsAnswer (c, ret, some h) = ((ret ≡ pos 0) × (h.imm ≡ status_ok)) ⊎ (is_neg ret ≡ true)

answer_of-IsAnswer : (r : Client × Response) → FailsBelow r → IsAnswer (answer_of r)
unfolding answer_of status_error
answer_of-IsAnswer (c, failed code) b = b
answer_of-IsAnswer (c, got h) b = ground arith

pub command-IsAnswer :
    (peer : Peer) (c : Client) (opcode : ℕ) (chunks : List Chunk)
    → IsAnswer (command peer c opcode chunks)
unfolding command
command-IsAnswer peer c opcode chunks =
    answer_of-IsAnswer (command_chunks peer c ch_stream opcode chunks)
      (command_chunks_below peer c ch_stream opcode chunks)
