-- ===== src/Wire/Packing.antt =====
-- What `wire_xfer_payload_chunks` sends: the bytes of all chunks, four to a word.
use chis_link.Common.{ℕ, zero, suc, ◌+◌, ◌*◌, ◌/◌, ◌^◌, ◌<◌, ◌≡◌, refl, sym, ap, ◌∙◌, arith}
use chis_link.Common.{List, [], ◌∷◌, ◌++◌, Option, length, length-append, IsByte, All}
use chis_link.Proto.Bytes.{load_le32_value}
use chis_link.Client.{Peer, Client, xfer32, send}
use chis_link.Wire.{
  Chunk, Packer, no_bytes, chunk_byte, push_byte, push_bytes, push_chunks, push_rest,
  xfer_payload_chunks,
}

-- The word of four bytes, lowest first.
abbrev pub word_of : ℕ → ℕ → ℕ → ℕ → ℕ
word_of a b c d = a + b * 2 ^ 8 + c * 2 ^ 16 + d * 2 ^ 24

-- The words that carry a list of bytes: four to a word, the last one filled with zeros.
abbrev pub words_of : List ℕ → List ℕ
words_of [] = []
words_of (a ∷ []) = word_of a 0 0 0 ∷ []
words_of (a ∷ b ∷ []) = word_of a b 0 0 ∷ []
words_of (a ∷ b ∷ c ∷ []) = word_of a b c 0 ∷ []
words_of (a ∷ b ∷ c ∷ d ∷ r) = word_of a b c d ∷ words_of r

-- The bytes of a chunk as the code reads them.
abbrev pub read_from : Option (List ℕ) → ℕ → ℕ → List ℕ
read_from bytes offset zero = []
read_from bytes offset (suc n) = chunk_byte bytes offset ∷ read_from bytes (offset + 1) n

abbrev pub chunk_bytes : Chunk → List ℕ
chunk_bytes chunk = read_from chunk.bytes 0 chunk.length

abbrev pub all_bytes : List Chunk → List ℕ
all_bytes [] = []
all_bytes (chunk ∷ chunks) = chunk_bytes chunk ++ all_bytes chunks

-- The client after the words `ws` went out.
abbrev pub send_all : Peer → Client → List ℕ → Client
send_all peer c [] = c
send_all peer c (w ∷ ws) = send_all peer (send peer c w) ws

-- Pushing the bytes of a list one by one.
abbrev push_list : Peer → List ℕ → Packer → Packer
push_list peer [] p = p
push_list peer (b ∷ bs) p = push_list peer bs (push_byte peer b p)

push_bytes-push_list :
    (peer : Peer) (n offset : ℕ) (bytes : Option (List ℕ)) (p : Packer)
    → push_bytes peer n offset bytes p ≡ push_list peer (read_from bytes offset n) p
unfolding push_bytes
push_bytes-push_list peer zero offset bytes p = refl
push_bytes-push_list peer (suc n) offset bytes p =
    push_bytes-push_list peer n (offset + 1) bytes (push_byte peer (chunk_byte bytes offset) p)

push_list-append :
    (peer : Peer) (xs ys : List ℕ) (p : Packer)
    → push_list peer (xs ++ ys) p ≡ push_list peer ys (push_list peer xs p)
push_list-append peer [] ys p = refl
push_list-append peer (x ∷ xs) ys p = push_list-append peer xs ys (push_byte peer x p)

push_chunks-push_list :
    (peer : Peer) (chunks : List Chunk) (p : Packer)
    → push_chunks peer chunks p ≡ push_list peer (all_bytes chunks) p
unfolding push_chunks
push_chunks-push_list peer [] p = refl
push_chunks-push_list peer (chunk ∷ chunks) p =
    push_chunks-push_list peer chunks (push_bytes peer chunk.length 0 chunk.bytes p)
    ∙ ap (push_list peer (all_bytes chunks))
        (push_bytes-push_list peer chunk.length 0 chunk.bytes p)
    ∙ sym (push_list-append peer (chunk_bytes chunk) (all_bytes chunks) p)

-- Four bytes from an empty packer make one word.
push_four :
    (peer : Peer) (c : Client) (x y z w : ℕ)
    → All IsByte (x ∷ y ∷ z ∷ w ∷ [])
    → push_list peer
        (x ∷ y ∷ z ∷ w ∷ [])
        (record { pending = no_bytes; pending_len = 0; client = c })
      ≡ record { pending = no_bytes; pending_len = 0; client = send peer c (word_of x y z w) }
unfolding push_byte
push_four peer c x y z w h =
    ap (λ (v : ℕ). record { pending = no_bytes; pending_len = 0; client = send peer c v })
      (load_le32_value (x ∷ y ∷ z ∷ w ∷ []) 4 h)

push_few :
    (peer : Peer) (c : Client) (bs : List ℕ)
    → All IsByte bs
    → length bs < 4
    → push_rest peer
        (push_list peer bs (record { pending = no_bytes; pending_len = 0; client = c }))
      ≡ send_all peer c (words_of bs)
unfolding push_byte push_rest
push_few peer c [] h l = refl
push_few peer c (x ∷ []) h l =
    ap (send peer c) (load_le32_value (x ∷ 0 ∷ 0 ∷ 0 ∷ []) 1 (omega arith))
push_few peer c (x ∷ y ∷ []) h l =
    ap (send peer c) (load_le32_value (x ∷ y ∷ 0 ∷ 0 ∷ []) 2 (omega arith))
push_few peer c (x ∷ y ∷ z ∷ []) h l =
    ap (send peer c) (load_le32_value (x ∷ y ∷ z ∷ 0 ∷ []) 3 (omega arith))
push_few peer c (x ∷ y ∷ z ∷ w ∷ r) h l = absurd (omega arith)

push_list-send_all :
    (peer : Peer) (c : Client) (bs : List ℕ)
    → All IsByte bs
    → push_rest peer
        (push_list peer bs (record { pending = no_bytes; pending_len = 0; client = c }))
      ≡ send_all peer c (words_of bs)
push_list-send_all peer c [] h = push_few peer c [] h (omega arith)
push_list-send_all peer c (x ∷ []) h = push_few peer c (x ∷ []) h (omega arith)
push_list-send_all peer c (x ∷ y ∷ []) h = push_few peer c (x ∷ y ∷ []) h (omega arith)
push_list-send_all peer c (x ∷ y ∷ z ∷ []) h = push_few peer c (x ∷ y ∷ z ∷ []) h (omega arith)
push_list-send_all peer c (x ∷ y ∷ z ∷ w ∷ r) h =
    ap (λ p. push_rest peer (push_list peer r p)) (push_four peer c x y z w (omega arith))
    ∙ push_list-send_all peer (send peer c (word_of x y z w)) r h.1.1.1.1

-- Chunks of bytes go out as the words of their bytes in a row: a word may span chunks, bytes that
-- are not given count as zero, and only the last word is filled up.
pub xfer_payload_chunks-send_all :
    (peer : Peer) (c : Client) (chunks : List Chunk)
    → All IsByte (all_bytes chunks)
    → xfer_payload_chunks peer c chunks ≡ send_all peer c (words_of (all_bytes chunks))
unfolding xfer_payload_chunks
xfer_payload_chunks-send_all peer c chunks h =
    ap (push_rest peer) (
      push_chunks-push_list peer chunks
        (record { pending = no_bytes; pending_len = 0; client = c }))
    ∙ push_list-send_all peer c (all_bytes chunks) h

-- How many words carry `n` bytes.
pub length-words_of : (bs : List ℕ) → length (words_of bs) ≡ (length bs + 3) / 4
length-words_of [] = omega arith
length-words_of (a ∷ []) = omega arith
length-words_of (a ∷ b ∷ []) = omega arith
length-words_of (a ∷ b ∷ c ∷ []) = omega arith
length-words_of (a ∷ b ∷ c ∷ d ∷ r) = omega (arith, length-words_of r)

-- The bytes of the chunks are as many as the lengths say.
length-read_from : (bytes : Option (List ℕ)) (offset n : ℕ) → length (read_from bytes offset n) ≡ n
length-read_from bytes offset zero = refl
length-read_from bytes offset (suc n) = ap suc (length-read_from bytes (offset + 1) n)

abbrev pub total_length : List Chunk → ℕ
total_length [] = 0
total_length (chunk ∷ chunks) = chunk.length + total_length chunks

pub length-all_bytes : (chunks : List Chunk) → length (all_bytes chunks) ≡ total_length chunks
length-all_bytes [] = refl
length-all_bytes (chunk ∷ chunks) = omega (
  arith,
  length-append (chunk_bytes chunk) (all_bytes chunks),
  length-read_from chunk.bytes 0 chunk.length,
  length-all_bytes chunks,
)

-- Sending words only appends them to the log.
abbrev pub log_all : List ℕ → List ℕ → List ℕ
log_all [] log = log
log_all (w ∷ ws) log = log_all ws (w ∷ log)

pub send_all-log :
    (peer : Peer) (c : Client) (ws : List ℕ)
    → send_all peer c ws ≡ record c { sent = log_all ws c.sent }
unfolding xfer32
send_all-log peer c [] = refl
send_all-log peer c (w ∷ ws) = send_all-log peer (send peer c w) ws
