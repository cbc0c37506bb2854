-- ===== src/Handshake.antt =====
-- gba/sdk/src/client.c: the commands on the control channel that open a connection and tune it.
pub mod Outcome
use chis_link.Common.{
  ℕ, List, [], ◌∷◌, Bool, true, false, not, ◌&&◌, ltb, ◌==◌, if◌then◌else◌, ℤ, pos, neg,
}
use chis_link.Proto.{Header, version}
use chis_link.Proto.Codes.{
  type_command, ch_control, ctrl_hello, ctrl_caps, ctrl_set_poll_ticks, status_ok, flag_needs_ack,
}
use chis_link.Client.{
  Peer, Client, State, offline, busy, xfer32, send, next_seq, bad_packet, after_status,
}
use chis_link.Wire.{Response, got, failed, nop_word, send_header, read_response}

abbrev pub control_header : ℕ → ℕ → ℕ → ℕ → Header
control_header opcode imm length seq = record {
  type = type_command;
  channel = ch_control;
  opcode = opcode;
  imm = imm;
  length = length;
  seq = seq;
  flags = flag_needs_ack;
  crc32 = 0;
}

-- How `cl_client_hello` and `cl_client_request_caps` end: an answer of less than 16 bytes is refused, and
-- of its four words the first is kept as the capabilities.
unfoldable pub take_caps : Peer → Client × Response → Client × Bool
take_caps peer (c, failed code) = (bad_packet c, false)
take_caps peer (c, got h) =
    if ltb h.length 16
    then (bad_packet c, false)
    else let (caps, c1) = xfer32 peer c nop_word in
      let c4 = send peer (send peer (send peer c1 nop_word) nop_word) nop_word in
      (
        record c4 { caps = caps; last_status = h.imm; state = after_status h.imm },
        h.imm == status_ok,
      )

unfoldable pub hello : Peer → Client → Client × Bool
hello peer c =
    if not c.has_xfer32
    then (c, false)
    else let (seq, c1) = next_seq c in
      let c2 =
        send_header peer (record c1 { state = busy }) (control_header ctrl_hello version 0 seq) in
      take_caps peer (read_response peer c2 ch_control ctrl_hello seq)

unfoldable pub request_caps : Peer → Client → Client × Bool
request_caps peer c =
    if not c.has_xfer32
    then (c, false)
    else let (seq, c1) = next_seq c in
      let c2 = send_header peer c1 (control_header ctrl_caps 0 0 seq) in
      take_caps peer (read_response peer c2 ch_control ctrl_caps seq)

unfoldable pub poll : Peer → Client → Client × Bool
poll peer c =
    let (c', online) = hello peer c in
    (if not online then record c' { state = offline } else c', online)

-- How `cl_client_set_poll_ticks` ends.
unfoldable pub take_ticks : Client × Response → Client × ℤ
take_ticks (c, failed code) = (bad_packet c, neg 2)
take_ticks (c, got h) = if h.imm == status_ok then (c, pos 0) else (bad_packet c, neg 2)

unfoldable pub set_poll_ticks : Peer → Client → ℕ → Client × ℤ
set_poll_ticks peer c ticks =
    if not c.has_xfer32
    then (c, neg 1)
    else let ticks' = (if ticks == 0 then 1 else ticks) in
      let (seq, c1) = next_seq c in
      let c2 = send_header peer c1 (control_header ctrl_set_poll_ticks 0 1 seq) in
      take_ticks (read_response peer (send peer c2 ticks') ch_control ctrl_set_poll_ticks seq)
