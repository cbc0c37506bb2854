-- ===== src/RamMap/Answers.antt =====
-- How the answers of the store end in ram_map.c.
use chis_link.Common.{ℕ, ◌≤◌, ◌≡◌, refl, ap, ◌∙◌, arith}
use chis_link.Common.{
  List, [], ◌++◌, true, false, some, length, overwrite, All, IsByte, IsU16, IsU32, ◌⊎◌, pos, is_neg,
  ltb,
}
use chis_link.Proto.{Header}
use chis_link.Proto.Codes.{
  type_response, ch_ram_map, ram_map_put, ram_map_get, status_ok, ram_map_value_max_bytes,
}
use chis_link.Proto.Frame.{IsValid}
use chis_link.Client.{Peer, Client, idle, next_seq, status_error}
use chis_link.Client.Sequence.{next_seq_lem}
use chis_link.Wire.{got, read_response}
use chis_link.Wire.Packing.{words_of, send_all-log, log_all}
use chis_link.Wire.Reading.{
  read_response-IsOutcome, Silent, Replies, nops, header_words, read_response-answer,
}
use chis_link.Wire.Payload.{read_payload-words_of}
use chis_link.RamMap.{settle, fetch, put, get}
use chis_link.RamMap.Requests.{
  Offers, IsKey, requested, request_words, key_request, put_request, put-requested, get-requested,
}

-- The link after the request with these bytes.
abbrev pub log_after : Client → ℕ → List ℕ → List ℕ
log_after c opcode bytes = log_all (request_words opcode (next_seq c).0 bytes) c.sent

-- The header of a good answer to the client's next command.
abbrev pub answer_header : Client → ℕ → ℕ → ℕ → ℕ → Header
answer_header c opcode n flags crc32 = record {
  type = type_response;
  channel = ch_ram_map;
  opcode = opcode;
  imm = status_ok;
  length = n;
  seq = (next_seq c).0;
  flags = flags;
  crc32 = crc32;
}

-- The other end answers the request after `k` silent rounds.
abbrev pub Responds : Peer → Client → ℕ → List ℕ → ℕ → Header → List ℕ → Type 0
Responds peer c opcode bytes k h payload =
    (k ≤ 8)
    × Silent peer k (log_after c opcode bytes)
    × Replies peer (nops k (log_after c opcode bytes)) (header_words h ++ words_of payload)

-- The client once the answer's header and `words` further words are read.
abbrev pub settled : Client → ℕ → List ℕ → ℕ → ℕ → Client
settled c opcode bytes k words = record c {
  next_seq = (next_seq c).0;
  last_status = status_ok;
  state = idle;
  sent = nops words (nops 4 (nops k (log_after c opcode bytes)));
}

requested_answer :
    (peer : Peer) (c : Client) (opcode n flags crc32 k : ℕ) (bytes payload : List ℕ)
    → c.has_xfer32 ≡ true
    → IsU16 c.next_seq
    → IsByte opcode
    → IsU32 n
    → IsU16 flags
    → IsU32 crc32
    → Responds peer c opcode bytes k (answer_header c opcode n flags crc32) payload
    → requested peer c opcode bytes
      ≡ (settled c opcode bytes k 0, got (answer_header c opcode n flags crc32))
unfolding next_seq
requested_answer peer c opcode n flags crc32 k bytes payload hx hs ho hn hf hc r =
    let h = answer_header c opcode n flags crc32 in
    ap (λ d. read_response peer d ch_ram_map opcode (next_seq c).0)
      (send_all-log peer (next_seq c).1 (request_words opcode (next_seq c).0 bytes))
    ∙ read_response-answer peer
        (record c { next_seq = (next_seq c).0; sent = log_after c opcode bytes }) k h hx r.0 r.1
        valid refl (r.2.0, (r.2.1.0, (r.2.1.1.0, (r.2.1.1.1.0, tt))))
  where
    valid : IsValid (answer_header c opcode n flags crc32)
    valid = record {
      type = omega arith;
      channel = omega arith;
      opcode = ho;
      imm = omega arith;
      length = hn;
      seq = (next_seq_lem c hs).1;
      flags = hf;
      crc32 = hc;
    }

-- When a client to which the store is offered gets a valid key, and the other end answers, after
-- at most eight silent rounds, with a header of the status OK and with bytes that fit the
-- capacity, the buffer and the limit of 2048, then the call returns 0 and their number, has them
-- at the front of the caller's buffer and leaves the rest of it, and the client is idle with the
-- status OK, having read the header's and the payload's words and no more.
pub get-answer :
    (peer : Peer) (c : Client) (key bytes buffer : List ℕ) (capacity n flags crc32 k : ℕ)
    → Offers c
    → IsU16 c.next_seq
    → IsKey key
    → IsU16 flags
    → IsU32 crc32
    → All IsByte bytes
    → length bytes ≤ capacity
    → capacity ≤ length buffer
    → length bytes ≤ ram_map_value_max_bytes
    → Responds peer c ram_map_get
        (key_request key)
        k
        (answer_header c ram_map_get (length bytes) flags crc32)
        bytes
    → get peer c (some key) (length key) (some buffer) capacity (some n) ≡ record {
      client = settled c ram_map_get (key_request key) k (length (words_of bytes));
      result = pos 0;
      value = some (overwrite bytes buffer);
      value_length = some (length bytes);
    }
unfolding fetch
get-answer peer c key bytes buffer capacity n flags crc32 k ho hs hk hf hc hb h1 h2 h3 r =
    get-requested peer c key buffer capacity n ho hk
    ∙ ap (fetch peer (some buffer) capacity) (
        requested_answer peer c ram_map_get (length bytes) flags crc32 k (key_request key) bytes
          ho.0 hs (omega arith) (omega arith) hf hc r)
    ∙ rw (fits, fits_value)
        (ap
          (λ t. record {
            client = t.0;
            result = pos 0;
            value = t.1;
            value_length = some (length bytes);
          })
          (read_payload-words_of peer (settled c ram_map_get (key_request key) k 0) bytes buffer
            (omega arith) (omega arith) hb r.2.1.1.1.1))
  where
    fits : ltb capacity (length bytes) ≡ false
    fits = ground arith

    fits_value : ltb ram_map_value_max_bytes (length bytes) ≡ false
    fits_value = ground arith

-- When a client to which the store is offered puts a valid key and a value of at most 2048 bytes,
-- and the other end answers with the status OK and no payload after at most eight silent rounds,
-- the call returns 0 and the client is idle with the status OK.
pub put-answer :
    (peer : Peer) (c : Client) (key value : List ℕ) (flags crc32 k : ℕ)
    → Offers c
    → IsU16 c.next_seq
    → IsKey key
    → length value ≤ ram_map_value_max_bytes
    → All IsByte value
    → IsU16 flags
    → IsU32 crc32
    → Responds peer c ram_map_put
        (put_request key value)
        k
        (answer_header c ram_map_put 0 flags crc32)
        []
    → put peer c (some key) (length key) (some value) (length value)
      ≡ (settled c ram_map_put (put_request key value) k 0, pos 0)
unfolding settle status_error
put-answer peer c key value flags crc32 k ho hs hk hl hv hf hc r =
    put-requested peer c key value ho hk hl hv
    ∙ ap (settle peer) (
        requested_answer peer c ram_map_put 0 flags crc32 k (put_request key value) [] ho.0 hs
          (omega arith) (omega arith) hf hc r)

-- However the other end answers a request over a transport, put, remove and clear end it with a
-- negative code, or with 0 and an idle client that holds the status OK.
pub settle_lem :
    (peer : Peer) (c : Client) (opcode seq : ℕ)
    → c.has_xfer32 ≡ true
    → let (c', result) = settle peer (read_response peer c ch_ram_map opcode seq) in
      (is_neg result ≡ true) ⊎ ((result ≡ pos 0) × (c'.state ≡ idle) × (c'.last_status ≡ status_ok))
unfolding settle status_error
settle_lem peer c opcode seq h =
    ground (arith, read_response-IsOutcome peer c ch_ram_map opcode seq h)
