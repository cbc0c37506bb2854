-- ===== src/Tests/Streams.antt =====
-- Concrete runs of the theorems on the commands of a stream.
use chis_link.Common.{
  inl, ℕ, some, List, ◌≡◌, refl, arith, [], ◌∷◌, true, Option, none, ℤ, neg, is_neg,
}
use chis_link.Proto.{Header, is_protocol_word, word_version}
use chis_link.Proto.Codes.{stream_close}
use chis_link.Client.{Peer, Client, idle, next_seq, xfer32}
use chis_link.Wire.{
  command_chunks, payload_length, payload_length_from, read_response, read_rounds,
  xfer_payload_chunks, push_rest, push_chunks, push_bytes, push_byte,
}
use chis_link.Wire.Reading.{nops}
use chis_link.Stream.{Stream, consumer_release_bytes}
use chis_link.Stream
use chis_link.StreamClient.{
  Drained, Port, recv_slot, answer_of, command, le32, request, read, read_or_discard,
}
use chis_link.StreamClient.Control.{take_closed, close, pump, seek}
use chis_link.StreamClient.Closing.{pump_failed, close_junk}
use chis_link.StreamClient.Receive.{IsLive, Receives, recv_slot-Receives}
use chis_link.StreamClient.Growing.{Grows, recv_slot-Grows}
use chis_link.StreamClient.Reading.{Gives, read-Gives}
use chis_link.StreamClient.Drain.{Returns, read-Returns}
use chis_link.StreamClient.Reach.{
  receives, seeks, releases_bytes, Reaches, stays, goes, Reaches-IsLive,
}
use chis_link.StreamClient.Seeking.{Moves, seek-Moves}
use chis_link.Tests.Ring.{ring, ring-IsValid}

-- The other end says nothing.
abbrev silent : Peer
silent log = 0

abbrev client : Client
client = record {
  has_xfer32 = true;
  state = idle;
  next_seq = 5;
  last_status = 0;
  caps = 0;
  sent = [];
}

abbrev port : Port
port = record { client = client; stream = ring; memory = [] }

ring-IsLive : IsLive ring
ring-IsLive = record { valid = ring-IsValid; offset_fits = omega arith }

abbrev closing : Client × ℤ × Option Header
closing = command silent client stream_close (request (le32 1) 4 ∷ [])

closing_fails : closing ≡ (closing.0, neg 2, none)
unfolding command answer_of command_chunks payload_length payload_length_from read_response
    read_rounds is_protocol_word word_version xfer32 next_seq xfer_payload_chunks push_rest
    push_chunks push_bytes push_byte
closing_fails = refl

close_junk_example :
    (close silent 9 client ring).0 ≡ record closing.0 { sent = nops 3 closing.0.sent }
close_junk_example =
    close_junk silent 9 client closing.0 ring (neg 2) (omega arith) refl (omega arith) closing_fails

pump_fails : is_neg (pump silent 9 client ring).2 ≡ true
unfolding pump take_closed command answer_of command_chunks payload_length payload_length_from
    read_response read_rounds is_protocol_word word_version xfer32 next_seq xfer_payload_chunks
    push_rest push_chunks push_bytes push_byte
pump_fails = refl

pump_failed_example :
    ((pump silent 9 client ring).1.stream_id ≡ 1)
    × ((pump silent 9 client ring).1.state ≡ Stream.error)
pump_failed_example = pump_failed silent 9 client ring (omega arith) pump_fails

seek-Moves_example : Moves ring 64 (seek silent 9 client ring 64)
seek-Moves_example = seek-Moves silent 9 client ring 64 ring-IsLive (omega arith)

recv_slot-Receives_example :
    Receives ring ((recv_slot silent none port).0.stream, (recv_slot silent none port).1)
recv_slot-Receives_example = recv_slot-Receives silent none port ring-IsLive

read-Returns_example : Returns 7 0 ring (read_or_discard silent none port true none 7)
read-Returns_example =
    read-Returns silent none port true none 7 ring-IsLive (omega arith) (omega arith) (inl refl)

-- A slot is received, three bytes are released, the stream is sought, and a slot is received again.
abbrev first : Port
first = (recv_slot silent none port).0

abbrev second : Port
second = record first { stream = (consumer_release_bytes first.stream 3).0 }

abbrev third : Port
third = record second {
  client = (seek silent 9 second.client second.stream 64).0;
  stream = (seek silent 9 second.client second.stream 64).1;
}

abbrev fourth : Port
fourth = (recv_slot silent none third).0

path : Reaches port fourth
path =
    goes (receives silent none)
      (goes (releases_bytes 3) (goes (seeks silent 9 64) (goes (receives silent none) stays)))

Reaches-IsLive_example : IsLive fourth.stream
Reaches-IsLive_example = Reaches-IsLive path ring-IsLive

-- The same with a buffer: the two bytes at 16 are read already, and the three after them are pending.
abbrev filled : Port
filled = record port {
  memory =
      0 ∷ 0 ∷ 0 ∷ 0 ∷ 0 ∷ 0 ∷ 0 ∷ 0 ∷ 0 ∷ 0 ∷ 0 ∷ 0 ∷ 0 ∷ 0 ∷ 0 ∷ 0 ∷ 1 ∷ 2 ∷ 3 ∷ 4 ∷ 5 ∷ 0 ∷ 0 ∷ 0
      ∷ [];
}

abbrev empty : List ℕ
empty = 0 ∷ 0 ∷ 0 ∷ 0 ∷ 0 ∷ 0 ∷ 0 ∷ []

read-Gives_example :
    (d : Drained) × (read silent none filled (some empty) 7 ≡ some d)
    × Gives silent 0 empty filled d
read-Gives_example =
    read-Gives silent none filled empty 7 tt ring-IsLive (omega arith) (omega arith) (omega arith)
      (omega arith)

recv_slot-Grows_example : Grows filled (recv_slot silent none filled)
recv_slot-Grows_example = recv_slot-Grows silent none filled tt ring-IsLive (omega arith)
