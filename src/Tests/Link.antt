-- ===== src/Tests/Link.antt =====
-- Concrete runs of the theorems on the link: frames, answers, the store and the handshake.
use chis_link.Common.{
  ℕ, ◌-◌, ◌≡◌, ◌≢◌, refl, arith, List, [], ◌∷◌, ◌++◌, true, false, some, none, get_or, length, ◌⊎◌,
  inl, inr, pos, neg,
}
use chis_link.Proto.{
  Header, encode_header_words, decode_header_words, is_protocol_word, word_version,
}
use chis_link.Proto.Codes.{
  type_response, ch_control, ch_ram_map, ctrl_hello, ram_map_get, ram_map_put, status_ok,
  status_bad_packet,
}
use chis_link.Proto.Frame.{IsValid, decode-encode}
use chis_link.Client.{Peer, Client, idle, error, next_seq}
use chis_link.Client.Sequence.{nth_seq, nth_seq-injective}
use chis_link.Wire.{Chunk, got, failed, command_chunks, read_response, read_payload}
use chis_link.Wire.Packing.{words_of}
use chis_link.Wire.Command.{command_chunks_refused}
use chis_link.Wire.Reading.{
  IsOutcome, read_response-IsOutcome, read_response-answer, nops, header_words,
}
use chis_link.Wire.Payload.{read_payload-words_of}
use chis_link.RamMap.{put, get}
use chis_link.RamMap.Requests.{Offers, IsKey, key_request, put_request, put_refused}
use chis_link.RamMap.Answers.{Responds, answer_header, settled, get-answer, put-answer}
use chis_link.Handshake.{hello, set_poll_ticks}
use chis_link.Handshake.Outcome.{set_poll_ticks_lem, greeting, hello-answer}

abbrev client : Client
client = record {
  has_xfer32 = true;
  state = idle;
  next_seq = 5;
  last_status = 0;
  caps = 0x800;
  sent = [];
}

-- The other end answers with these words, once `after` words were sent.
abbrev scripted : ℕ → List ℕ → Peer
scripted after answers log = get_or answers (length log - after - 1) 0

zero_is_silent : is_protocol_word 0 ≡ false
unfolding is_protocol_word word_version
zero_is_silent = refl

abbrev key : List ℕ
key = 1 ∷ []

abbrev stored : List ℕ
stored = 7 ∷ 8 ∷ []

abbrev answer : Header
answer = answer_header client ram_map_get 2 0 0

-- The request takes six words; one silent round is before the answer.
abbrev store : Peer
store = scripted 6 (0 ∷ (header_words answer ++ words_of stored))

responds : Responds store client ram_map_get (key_request key) 1 answer stored
responds = (omega arith, (inl zero_is_silent, tt), (refl, (refl, (refl, (refl, (refl, tt))))))

offers : Offers client
offers = (refl, omega arith)

key-IsKey : IsKey key
key-IsKey = (omega arith, omega arith, omega arith)

get-answer_example : get store client (some key) 1 (some (0 ∷ 0 ∷ 9 ∷ [])) 3 (some 4) ≡ record {
  client = settled client ram_map_get (key_request key) 1 1;
  result = pos 0;
  value = some (7 ∷ 8 ∷ 9 ∷ []);
  value_length = some 2;
}
get-answer_example =
    get-answer store client key stored (0 ∷ 0 ∷ 9 ∷ []) 3 4 0 0 1 offers (omega arith) key-IsKey
      (omega arith) (omega arith) (omega arith) (omega arith) (omega arith) (omega arith) responds

-- The same client's `put` of the value 7, 8: 4 + 3 words, then the answer at once.
abbrev put_reply : Header
put_reply = answer_header client ram_map_put 0 0 0

abbrev acknowledging : Peer
acknowledging = scripted 7 (header_words put_reply)

acknowledges : Responds acknowledging client ram_map_put (put_request key stored) 0 put_reply []
acknowledges = (omega arith, tt, (refl, (refl, (refl, (refl, tt)))))

put-answer_example :
    put acknowledging client (some key) 1 (some stored) 2
    ≡ (settled client ram_map_put (put_request key stored) 0 0, pos 0)
put-answer_example =
    put-answer acknowledging client key stored 0 0 0 offers (omega arith) key-IsKey (omega arith)
      (omega arith) (omega arith) (omega arith) acknowledges

put_refused_example :
    let (c', result) = put store client (some key) 65 (some stored) 2 in
    (c' ≡ client) × ((result ≡ neg 1) ⊎ (result ≡ neg 4))
put_refused_example = put_refused store client (some key) (some stored) 65 2 (omega arith)

-- Two chunks whose bytes share a word.
abbrev chunks : List Chunk
chunks =
    record { bytes = some (1 ∷ 2 ∷ 3 ∷ []); length = 3 } ∷ record { bytes = none; length = 2 } ∷ []

abbrev oversize : List Chunk
oversize = record { bytes = none; length = 32000 } ∷ record { bytes = none; length = 769 } ∷ []

command_chunks_refused_example :
    command_chunks store client ch_ram_map ram_map_put oversize ≡ (client, failed (neg 1))
command_chunks_refused_example =
    command_chunks_refused store client ch_ram_map ram_map_put oversize (inr (omega arith))

read_response-IsOutcome_example :
    IsOutcome ch_ram_map ram_map_get 6 (read_response store client ch_ram_map ram_map_get 6)
read_response-IsOutcome_example = read_response-IsOutcome store client ch_ram_map ram_map_get 6 refl

-- A response to the command 6, behind two silent rounds.
abbrev response : Header
response = record {
  type = type_response;
  channel = ch_ram_map;
  opcode = ram_map_get;
  imm = 8;
  length = 0;
  seq = 6;
  flags = 0;
  crc32 = 0;
}

response-IsValid : IsValid response
response-IsValid = record {
  type = omega arith;
  channel = omega arith;
  opcode = omega arith;
  imm = omega arith;
  length = omega arith;
  seq = omega arith;
  flags = omega arith;
  crc32 = omega arith;
}

abbrev late : Peer
late = scripted 0 (0 ∷ 0 ∷ header_words response)

read_response-answer_example :
    read_response late client ch_ram_map ram_map_get 6
    ≡ (record client { last_status = 8; state = error; sent = nops 6 [] }, got response)
read_response-answer_example =
    read_response-answer late client 2 response refl (omega arith)
      (inl zero_is_silent, (inl zero_is_silent, tt)) response-IsValid refl
      (refl, (refl, (refl, (refl, tt))))

abbrev paying : Peer
paying = scripted 0 (words_of (1 ∷ 2 ∷ 3 ∷ 4 ∷ 5 ∷ []))

read_payload-words_of_example :
    read_payload paying client (some (9 ∷ 9 ∷ 9 ∷ 9 ∷ 9 ∷ 9 ∷ [])) 5
    ≡ (record client { sent = nops 2 [] }, some (1 ∷ 2 ∷ 3 ∷ 4 ∷ 5 ∷ 9 ∷ []))
read_payload-words_of_example =
    read_payload-words_of paying client (1 ∷ 2 ∷ 3 ∷ 4 ∷ 5 ∷ []) (9 ∷ 9 ∷ 9 ∷ 9 ∷ 9 ∷ 9 ∷ [])
      (omega arith) (omega arith) (omega arith) (refl, (refl, tt))

set_poll_ticks_lem_example :
    let (c', result) = set_poll_ticks store client 3 in
    ((result ≡ pos 0) × (c'.state ≡ idle) × (c'.last_status ≡ status_ok))
    ⊎ ((result ≡ neg 2) × (c'.state ≡ error) × (c'.last_status ≡ status_bad_packet))
set_poll_ticks_lem_example = set_poll_ticks_lem store client 3 refl

-- A greeting takes four words; the answer comes at once.
abbrev welcome : Header
welcome = record {
  type = type_response;
  channel = ch_control;
  opcode = ctrl_hello;
  imm = status_ok;
  length = 16;
  seq = (next_seq client).0;
  flags = 0;
  crc32 = 0;
}

abbrev welcoming : Peer
welcoming = scripted 4 (header_words welcome ++ (0x801 ∷ 1 ∷ 2 ∷ 3 ∷ []))

hello-answer_example : hello welcoming client ≡ (
  record (greeting client) {
    state = idle;
    last_status = status_ok;
    caps = 0x801;
    sent = nops 8 (greeting client).sent;
  },
  true,
)
hello-answer_example =
    hello-answer welcoming client 0 0 0 0x801 1 2 3 16 refl (omega arith) (omega arith)
      (omega arith) (omega arith) (omega arith) (omega arith) tt
      (refl, (refl, (refl, (refl, (refl, (refl, (refl, (refl, tt))))))))

decode-encode_example : decode_header_words (encode_header_words response) ≡ some response
decode-encode_example = decode-encode response response-IsValid

nth_seq-injective_example : nth_seq 1 client ≢ nth_seq 60000 client
nth_seq-injective_example =
    nth_seq-injective client 1 60000 (omega arith) (omega arith) (omega arith) (omega arith)
