-- ===== src/RamMap/Requests.antt =====
-- What the requests of ram_map.c put on the link, and which calls put nothing there.
use chis_link.Common.{ℕ, zero, suc, ◌+◌, ◌≤◌, ◌<◌, ◌≡◌, ◌≢◌, refl, sym, ap, ◌∙◌, arith}
use chis_link.Common.{
  not, ◌&&◌, ◌==◌, List, [], ◌∷◌, ◌++◌, Bool, true, false, Option, none, some, get_or, take, drop,
  length, All, All-append, IsByte, ◌⊎◌, bit_and, pos, neg, append-nil, length-append,
}
use chis_link.Proto.{store_le32, encode_header_words}
use chis_link.Proto.Bytes.{word_bytes, word_bytes-IsByte, store_le32-overwrite}
use chis_link.Proto.Codes.{
  ch_ram_map, ram_map_put, ram_map_get, ram_map_remove, cap_ram_map, ram_map_key_max_bytes,
  ram_map_value_max_bytes,
}
use mathlib.Core.Path.{ap₂, subst}
use chis_link.Client.{Peer, Client, next_seq}
use chis_link.Wire.{command_header, Response, no_bytes, read_response, command_chunks}
use chis_link.Wire.Packing.{all_bytes, words_of, send_all, total_length, read_from}
use chis_link.Wire.Command.{frame_words, command_chunks-frame}
use chis_link.RamMap.{
  validate_map, validate_key, key_chunks, put_chunks, put_fixed, put, remove, get, settle, fetch,
}

-- The connection is up and the other end offers the store.
abbrev pub Offers : Client → Type 0
Offers c = (c.has_xfer32 ≡ true) × (bit_and c.caps cap_ram_map ≢ 0)

-- A key that the source accepts.
abbrev pub IsKey : List ℕ → Type 0
IsKey key = (1 ≤ length key) × (length key ≤ ram_map_key_max_bytes) × All IsByte key

read_from-suc :
    (x : ℕ) (bytes : List ℕ) (offset n : ℕ)
    → read_from (some (x ∷ bytes)) (suc offset) n ≡ read_from (some bytes) offset n
read_from-suc x bytes offset zero = refl
read_from-suc x bytes offset (suc n) =
    ap (λ k. get_or bytes offset 0 ∷ read_from (some (x ∷ bytes)) k n) later
    ∙ ap (λ t. get_or bytes offset 0 ∷ t) (read_from-suc x bytes (offset + 1) n)
  where
    later : suc offset + 1 ≡ suc (offset + 1)
    later = omega arith

-- A chunk whose length is that of its list is read whole.
pub read_from_whole : (bytes : List ℕ) → read_from (some bytes) 0 (length bytes) ≡ bytes
read_from_whole [] = refl
read_from_whole (x ∷ bytes) =
    ap (λ t. x ∷ t) (read_from-suc x bytes 0 (length bytes) ∙ read_from_whole bytes)

pub key_bytes :
    (key : List ℕ) → all_bytes (key_chunks (some key) (length key)) ≡ word_bytes (length key) ++ key
key_bytes key =
    let n = length key in
    ap (λ b. read_from (some b) 0 4 ++ (read_from (some key) 0 n ++ []))
      (store_le32-overwrite no_bytes n 4)
    ∙ ap (λ t. word_bytes n ++ t) (append-nil (read_from (some key) 0 n) ∙ read_from_whole key)

pub put_bytes :
    (key value : List ℕ)
    → all_bytes (put_chunks (some key) (length key) (some value) (length value))
      ≡ word_bytes (length key) ++ (word_bytes (length value) ++ (key ++ value))
put_bytes key value =
    let n = length key in
    let m = length value in
    ap
      (λ b.
        read_from (some b) 0 8 ++ (read_from (some key) 0 n ++ (read_from (some value) 0 m ++ [])))
      (fixed n m)
    ∙ ap₂ (λ s t. word_bytes n ++ (word_bytes m ++ (s ++ t))) (read_from_whole key)
        (append-nil (read_from (some value) 0 m) ∙ read_from_whole value)
  where
    fixed : (n m : ℕ) → put_fixed n m ≡ word_bytes n ++ word_bytes m
    fixed n m =
        ap (λ f. take 4 f ++ store_le32 (drop 4 f) m 4)
          (store_le32-overwrite (no_bytes ++ no_bytes) n 4)
        ∙ ap (λ t. word_bytes n ++ t) (store_le32-overwrite no_bytes m 4)

-- The words of a request: the frame header, then the fixed part, the key and the value in a row.
abbrev pub request_words : ℕ → ℕ → List ℕ → List ℕ
request_words opcode seq bytes =
    let (w0, w1, w2, w3) =
      encode_header_words (command_header ch_ram_map opcode (length bytes) seq) in
    w0 ∷ w1 ∷ w2 ∷ w3 ∷ words_of bytes

abbrev pub key_request : List ℕ → List ℕ
key_request key = word_bytes (length key) ++ key

abbrev pub put_request : List ℕ → List ℕ → List ℕ
put_request key value = word_bytes (length key) ++ (word_bytes (length value) ++ (key ++ value))

key_request-frame :
    (opcode seq : ℕ) (key : List ℕ)
    → frame_words ch_ram_map opcode seq (key_chunks (some key) (length key))
      ≡ request_words opcode seq (key_request key)
key_request-frame opcode seq key =
    ap₂
      (λ n bytes.
        let (w0, w1, w2, w3) = encode_header_words (command_header ch_ram_map opcode n seq) in
        w0 ∷ w1 ∷ w2 ∷ w3 ∷ words_of bytes)
      {x = total_length (key_chunks (some key) (length key))} {y = length (key_request key)}
      (omega (arith, length-append (word_bytes (length key)) key)) (key_bytes key)

put_request-frame :
    (seq : ℕ) (key value : List ℕ)
    → frame_words ch_ram_map ram_map_put seq
        (put_chunks (some key) (length key) (some value) (length value))
      ≡ request_words ram_map_put seq (put_request key value)
put_request-frame seq key value =
    ap₂
      (λ n bytes.
        let (w0, w1, w2, w3) = encode_header_words (command_header ch_ram_map ram_map_put n seq) in
        w0 ∷ w1 ∷ w2 ∷ w3 ∷ words_of bytes)
      lengths (put_bytes key value)
  where
    lengths :
        total_length (put_chunks (some key) (length key) (some value) (length value))
        ≡ length (put_request key value)
    lengths = omega (arith, length-append key value)

-- The client once a request went out and its answer was read.
abbrev pub requested : Peer → Client → ℕ → List ℕ → Client × Response
requested peer c opcode bytes =
    let (seq, c1) = next_seq c in
    read_response peer (send_all peer c1 (request_words opcode seq bytes)) ch_ram_map opcode seq

key_command :
    (peer : Peer) (c : Client) (opcode : ℕ) (key : List ℕ)
    → Offers c
    → IsKey key
    → command_chunks peer c ch_ram_map opcode (key_chunks (some key) (length key))
      ≡ requested peer c opcode (key_request key)
key_command peer c opcode key ho hk =
    command_chunks-frame peer c ch_ram_map opcode (key_chunks (some key) (length key)) ho.0
      (omega arith)
      (subst (All IsByte) (sym (key_bytes key))
        (All-append IsByte (word_bytes (length key)) key (word_bytes-IsByte (length key)) hk.2))
    ∙ ap
        (λ ws.
          read_response peer (send_all peer (next_seq c).1 ws) ch_ram_map opcode (next_seq c).0)
        (key_request-frame opcode (next_seq c).0 key)

put_command :
    (peer : Peer) (c : Client) (key value : List ℕ)
    → Offers c
    → IsKey key
    → length value ≤ ram_map_value_max_bytes
    → All IsByte value
    → command_chunks peer c ch_ram_map ram_map_put
        (put_chunks (some key) (length key) (some value) (length value))
      ≡ requested peer c ram_map_put (put_request key value)
put_command peer c key value ho hk hl hv =
    command_chunks-frame peer c ch_ram_map ram_map_put
      (put_chunks (some key) (length key) (some value) (length value)) ho.0 (omega arith)
      (subst (All IsByte) (sym (put_bytes key value)) bytes)
    ∙ ap
        (λ ws.
          read_response peer (send_all peer (next_seq c).1 ws) ch_ram_map ram_map_put
            (next_seq c).0)
        (put_request-frame (next_seq c).0 key value)
  where
    bytes : All IsByte (put_request key value)
    bytes =
        All-append IsByte (word_bytes (length key)) (word_bytes (length value) ++ (key ++ value))
          (word_bytes-IsByte (length key))
          (All-append IsByte (word_bytes (length value)) (key ++ value)
            (word_bytes-IsByte (length value)) (All-append IsByte key value hk.2 hv))

valid_map : (c : Client) → Offers c → validate_map c ≡ pos 0
unfolding validate_map
valid_map c ho = ground arith

valid_key : (key : List ℕ) → IsKey key → validate_key (some key) (length key) ≡ pos 0
unfolding validate_key
valid_key key hk = ground arith

andb_false : (b : Bool) → (b && false) ≡ false
andb_false false = refl
andb_false true = refl

-- A put of a valid key and a value of at most 2048 bytes by a client to which the store is offered
-- sends one frame with the two lengths, the key and the value, and ends as the answer to it says.
pub put-requested :
    (peer : Peer) (c : Client) (key value : List ℕ)
    → Offers c
    → IsKey key
    → length value ≤ ram_map_value_max_bytes
    → All IsByte value
    → put peer c (some key) (length key) (some value) (length value)
      ≡ settle peer (requested peer c ram_map_put (put_request key value))
unfolding put validate_map validate_key
put-requested peer c key value ho hk hl hv =
    ground (arith, put_command peer c key value ho hk hl hv)

-- The same of `remove`, whose request has the key alone.
pub remove-requested :
    (peer : Peer) (c : Client) (key : List ℕ)
    → Offers c
    → IsKey key
    → remove peer c (some key) (length key)
      ≡ settle peer (requested peer c ram_map_remove (key_request key))
unfolding remove validate_map validate_key
remove-requested peer c key ho hk = ground (arith, key_command peer c ram_map_remove key ho hk)

-- The same of `get`.
pub get-requested :
    (peer : Peer) (c : Client) (key : List ℕ) (value : List ℕ) (value_capacity n : ℕ)
    → Offers c
    → IsKey key
    → get peer c (some key) (length key) (some value) value_capacity (some n)
      ≡ fetch peer (some value) value_capacity (requested peer c ram_map_get (key_request key))
unfolding get
get-requested peer c key value value_capacity n ho hk =
    rw (valid_map c ho, valid_key key hk, andb_false (not (value_capacity == 0)))
      (ap (fetch peer (some value) value_capacity) (key_command peer c ram_map_get key ho hk))

-- A put without transport, without the capability, with a NULL key, a key length of 0 or above 64,
-- or a value length above 2048 fails with -1 or -4 and leaves the client and the link as they
-- were.
pub put_refused :
    (peer : Peer) (c : Client) (key value : Option (List ℕ)) (key_length value_length : ℕ)
    → (c.has_xfer32 ≡ false)
      ⊎ ((bit_and c.caps cap_ram_map ≡ 0)
          ⊎ ((key ≡ none)
              ⊎ ((key_length ≡ 0)
                  ⊎ ((ram_map_key_max_bytes < key_length)
                      ⊎ (ram_map_value_max_bytes < value_length)))))
    → let (c', result) = put peer c key key_length value value_length in
      (c' ≡ c) × ((result ≡ neg 1) ⊎ (result ≡ neg 4))
unfolding put validate_map validate_key
put_refused peer c none value key_length value_length h = ground arith
put_refused peer c (some key) value key_length value_length h = ground arith
