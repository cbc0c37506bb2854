-- ===== src/Handshake/Outcome.antt =====
-- What the control commands leave in the client.
use chis_link.Common.{ℕ, ◌≤◌, ◌≡◌, refl, ap, ◌∙◌, arith}
use chis_link.Common.{
  [], ◌∷◌, ◌++◌, Bool, true, false, ◌⊎◌, ◌==◌, if◌then◌else◌, ltb, IsU16, IsU32, pos, neg,
}
use chis_link.Proto.{Header, version, encode_header_words}
use chis_link.Proto.Codes.{
  type_response, ch_control, ctrl_hello, ctrl_set_poll_ticks, status_ok, status_bad_packet,
}
use chis_link.Proto.Frame.{IsValid}
use chis_link.Client.{Peer, Client, offline, idle, busy, error, xfer32, send, next_seq}
use chis_link.Client.Sequence.{next_seq_lem}
use chis_link.Wire.{Response, got, failed, send_header, read_response}
use chis_link.Wire.Reading.{
  read_response-IsOutcome, Silent, Replies, nops, header_words, read_response-answer,
}
use chis_link.Handshake.{control_header, take_caps, hello, poll, take_ticks, set_poll_ticks}

-- A flag of success and the client agree: success is an idle client with the status OK, failure is an
-- error state.
abbrev pub Agrees : Client × Bool → Type 0
Agrees (c, true) = (c.state ≡ idle) × (c.last_status ≡ status_ok)
Agrees (c, false) = c.state ≡ error

take_caps-Agrees : (peer : Peer) (r : Client × Response) → Agrees (take_caps peer r)
unfolding take_caps xfer32
take_caps-Agrees peer (c, failed code) = refl
take_caps-Agrees peer (c, got h) = ground arith

-- With a transport, a greeting ends in the idle state with the status OK if it reports success, and in
-- the error state if it reports failure.
pub hello-Agrees : (peer : Peer) (c : Client) → c.has_xfer32 ≡ true → Agrees (hello peer c)
unfolding hello
hello-Agrees peer c h =
    let (seq, c1) = next_seq c in
    let c2 =
      send_header peer (record c1 { state = busy }) (control_header ctrl_hello version 0 seq) in
    ground (arith, take_caps-Agrees peer (read_response peer c2 ch_control ctrl_hello seq))

-- With a transport, polling reports success with an idle client that holds the status OK, or
-- reports failure and leaves the client offline.
pub poll_lem :
    (peer : Peer) (c : Client)
    → c.has_xfer32 ≡ true
    → (((poll peer c).1 ≡ true)
        × ((poll peer c).0.state ≡ idle)
        × ((poll peer c).0.last_status ≡ status_ok))
      ⊎ (((poll peer c).1 ≡ false) × ((poll peer c).0.state ≡ offline))
unfolding poll
poll_lem peer c h = ground (arith, hello-Agrees peer c h)

-- The client while it greets: the new sequence number is kept and the four words of the header are sent.
abbrev pub greeting : Client → Client
greeting c =
    let (w0, w1, w2, w3) =
      encode_header_words (control_header ctrl_hello version 0 (next_seq c).0) in
    record c { state = busy; next_seq = (next_seq c).0; sent = w3 ∷ w2 ∷ w1 ∷ w0 ∷ c.sent }

-- With a transport, a greeting answered with a length of at least 16, the status OK and four words
-- of capabilities, after at most eight silent rounds, succeeds: the first word is kept as the
-- capabilities, the client is idle, and exactly four words of payload are read behind the header,
-- whatever length it declares.
pub hello-answer :
    (peer : Peer) (c : Client) (k flags crc32 caps x y z length : ℕ)
    → c.has_xfer32 ≡ true
    → IsU16 c.next_seq
    → k ≤ 8
    → 16 ≤ length
    → IsU32 length
    → IsU16 flags
    → IsU32 crc32
    → Silent peer k (greeting c).sent
    → Replies peer (nops k (greeting c).sent) (
        header_words (record {
          type = type_response;
          channel = ch_control;
          opcode = ctrl_hello;
          imm = status_ok;
          length = length;
          seq = (next_seq c).0;
          flags = flags;
          crc32 = crc32;
        })
        ++ (caps ∷ x ∷ y ∷ z ∷ []))
    → hello peer c ≡ (
      record (greeting c) {
        state = idle;
        last_status = status_ok;
        caps = caps;
        sent = nops 8 (nops k (greeting c).sent);
      },
      true,
    )
unfolding take_caps xfer32
hello-answer peer c k flags crc32 caps x y z length hx hs hk h16 hl hf hc silent r =
    start
    ∙ ap (take_caps peer) answered
    ∙ rw long_enough (
        ap
          (λ v. (
            record (greeting c) {
              state = idle;
              last_status = status_ok;
              caps = v;
              sent = nops 8 (nops k (greeting c).sent);
            },
            true,
          ))
          r.1.1.1.1.0)
  where
    long_enough : ltb length 16 ≡ false
    long_enough = ground arith

    h : Header
    h = record {
      type = type_response;
      channel = ch_control;
      opcode = ctrl_hello;
      imm = status_ok;
      length = length;
      seq = (next_seq c).0;
      flags = flags;
      crc32 = crc32;
    }

    start :
        hello peer c
        ≡ take_caps peer (read_response peer (greeting c) ch_control ctrl_hello (next_seq c).0)
    start = unfold hello xfer32 next_seq in ground arith

    valid : IsValid h
    valid = record {
      type = omega arith;
      channel = omega arith;
      opcode = omega arith;
      imm = omega arith;
      length = hl;
      seq = (next_seq_lem c hs).1;
      flags = hf;
      crc32 = hc;
    }

    answered : read_response peer (greeting c) ch_control ctrl_hello (next_seq c).0 ≡ (
      record (greeting c) {
        last_status = status_ok;
        state = idle;
        sent = nops 4 (nops k (greeting c).sent);
      },
      got h,
    )
    answered =
        read_response-answer peer (greeting c) k h hx hk silent valid refl
          (r.0, (r.1.0, (r.1.1.0, (r.1.1.1.0, tt))))

-- With a transport, setting the poll ticks ends with 0 and an idle client that holds the status
-- OK, or with -2, BAD_PACKET and the error state.
pub set_poll_ticks_lem :
    (peer : Peer) (c : Client) (ticks : ℕ)
    → c.has_xfer32 ≡ true
    → let (c', result) = set_poll_ticks peer c ticks in
      ((result ≡ pos 0) × (c'.state ≡ idle) × (c'.last_status ≡ status_ok))
      ⊎ ((result ≡ neg 2) × (c'.state ≡ error) × (c'.last_status ≡ status_bad_packet))
unfolding set_poll_ticks take_ticks next_seq xfer32
set_poll_ticks_lem peer c ticks h =
    let seq = (next_seq c).0 in
    let c2 = send_header peer (next_seq c).1 (control_header ctrl_set_poll_ticks 0 1 seq) in
    let c3 = send peer c2 (if ticks == 0 then 1 else ticks) in
    ground (arith, read_response-IsOutcome peer c3 ch_control ctrl_set_poll_ticks seq h)
