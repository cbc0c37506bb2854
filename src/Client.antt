-- ===== src/Client.antt =====
-- gba/sdk/src/client.c (with include/chislink/client.h): the state of a connection, and what does not
-- exchange words. The handshake is in Handshake.antt, since it goes through wire.c.
pub mod Sequence
use chis_link.Common.{
  ℕ, ◌+◌, List, ◌∷◌, Bool, true, false, ◌==◌, if◌then◌else◌, Option, none, some, u16, ℤ, pos, neg,
}
use chis_link.Proto.Codes.{status_ok, status_bad_packet}

-- The other end of the link: its answer to a word, from all words that it was sent, newest first.
-- `transport_user` and whatever the transport keeps are part of it.
abbrev pub Peer : Type 0
Peer = List ℕ → ℕ

-- `cl_client_state_t`
pub data State : Type 0 where
  offline idle busy error : State

-- `cl_client_t`. Of `config` the field tells whether `xfer32` is set; `sent` is the link's log.
pub record Client : Type 0 where
  pub has_xfer32 : Bool
  pub state : State
  pub next_seq : ℕ
  pub last_status : ℕ
  pub caps : ℕ
  pub sent : List ℕ

-- `config.xfer32(word, transport_user)`: the answer, and the client with the word logged.
unfoldable pub xfer32 : Peer → Client → ℕ → ℕ × Client
xfer32 peer c word = (peer (word ∷ c.sent), record c { sent = word ∷ c.sent })

-- A call of `xfer32` whose answer is dropped.
abbrev pub send : Peer → Client → ℕ → Client
send peer c word = (xfer32 peer c word).1

-- `client_next_seq`: the new sequence number, and the client that keeps it.
unfoldable pub next_seq : Client → ℕ × Client
next_seq c =
    let seq = (if u16 (c.next_seq + 1) == 0 then 1 else u16 (c.next_seq + 1)) in
    (seq, record c { next_seq = seq })

-- `cl_client_init`; `none` is the result `false`.
unfoldable pub init : Bool → List ℕ → Option Client
init has_xfer32 sent =
    if has_xfer32
    then some (record {
      has_xfer32 = has_xfer32;
      state = offline;
      next_seq = 0;
      last_status = status_ok;
      caps = 0;
      sent = sent;
    })
    else none

-- `-(int)status - 10`, or 0 for CLP_STATUS_OK.
unfoldable pub status_error : ℕ → ℤ
status_error status = if status == status_ok then pos 0 else neg (status + 10)

unfoldable pub set_current_seq : Client → ℕ → Client
set_current_seq c seq = record c { next_seq = seq }

-- What the code does on a packet that it cannot use.
abbrev pub bad_packet : Client → Client
bad_packet c = record c { last_status = status_bad_packet; state = error }

-- The state that an answer with the status `imm` leaves.
abbrev pub after_status : ℕ → State
after_status imm = if imm == status_ok then idle else error
