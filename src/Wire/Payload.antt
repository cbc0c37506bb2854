-- ===== src/Wire/Payload.antt =====
-- `cl_wire_read_payload`: the bytes that arrive.
use chis_link.Common.{ℕ, zero, suc, ◌+◌, ◌-◌, ◌/◌, ◌≤◌, ◌<◌, ◌≡◌, refl, sym, ap, ◌∙◌, arith}
use chis_link.Common.{
  List, [], ◌∷◌, ◌++◌, none, some, ltb, if◌then◌else◌, length, take, drop, overwrite, All, IsByte,
}
use chis_link.Common.{
  length-append, length-drop, take-append_length, drop-append_length, append_assoc, take_all,
}
use chis_link.Proto.{store_le32, aligned_length}
use chis_link.Proto.Bytes.{store_le32-overwrite, word_bytes}
use chis_link.Proto.Frame.{aligned_length_lem}
use chis_link.Client.{Peer, Client, xfer32}
use chis_link.Wire.{nop_word, read_words, read_payload, discard_payload}
use chis_link.Wire.Packing.{word_of, words_of, length-words_of}
use mathlib.Core.Path.{ap₂}
use chis_link.Wire.Reading.{Replies, nops}

-- A word of four bytes is stored as these bytes.
word_bytes-word_of :
    (a b c d : ℕ)
    → All IsByte (a ∷ b ∷ c ∷ d ∷ [])
    → word_bytes (word_of a b c d) ≡ a ∷ b ∷ c ∷ d ∷ []
word_bytes-word_of a b c d h = ground arith

-- One round of the loop writes the next bytes behind what is done.
pub stored_at :
    (done rest : List ℕ) (offset w n : ℕ)
    → offset ≡ length done
    → take offset (done ++ rest) ++ store_le32 (drop offset (done ++ rest)) w n
      ≡ done ++ overwrite (take n (word_bytes w)) rest
stored_at done rest offset w n h =
    ap (λ k. take k (done ++ rest) ++ store_le32 (drop k (done ++ rest)) w n) h
    ∙ rw (take-append_length done rest, drop-append_length done rest, store_le32-overwrite rest w n)
        refl

read_one :
    (peer : Peer) (c : Client) (k : ℕ) (done rest bs : List ℕ) (offset len w : ℕ)
    → offset ≡ length done
    → offset < len
    → peer (nop_word ∷ c.sent) ≡ w
    → take (len - offset) (word_bytes w) ≡ bs
    → read_words peer (suc k) offset len (some (done ++ rest)) c
      ≡ read_words peer k
          (offset + 4)
          len
          (some (done ++ overwrite bs rest))
          (record c { sent = nop_word ∷ c.sent })
unfolding read_words xfer32
read_one peer c k done rest bs offset len w ho hl hw hb =
    ap
      (λ buffer.
        read_words peer k (offset + 4) len (some buffer) (record c { sent = nop_word ∷ c.sent }))
      (chosen
        ∙ stored_at done rest offset (peer (nop_word ∷ c.sent)) (len - offset) ho
        ∙ ap (λ b. done ++ overwrite b rest) (ap (λ v. take (len - offset) (word_bytes v)) hw ∙ hb))
  where
    chosen :
        (if ltb offset len
          then take offset (done ++ rest)
            ++ store_le32 (drop offset (done ++ rest)) (peer (nop_word ∷ c.sent)) (len - offset)
          else done ++ rest)
        ≡ take offset (done ++ rest)
          ++ store_le32 (drop offset (done ++ rest)) (peer (nop_word ∷ c.sent)) (len - offset)
    chosen = ground arith

pub overwrite_four :
    (x y z w : ℕ) (bs rest : List ℕ)
    → 4 ≤ length rest
    → overwrite (x ∷ y ∷ z ∷ w ∷ bs) rest ≡ x ∷ y ∷ z ∷ w ∷ overwrite bs (drop 4 rest)
overwrite_four x y z w bs [] h = absurd (omega arith)
overwrite_four x y z w bs (a ∷ []) h = absurd (omega arith)
overwrite_four x y z w bs (a ∷ b ∷ []) h = absurd (omega arith)
overwrite_four x y z w bs (a ∷ b ∷ c ∷ []) h = absurd (omega arith)
overwrite_four x y z w bs (a ∷ b ∷ c ∷ d ∷ rest) h = refl

take_of :
    (n m : ℕ) (a b c d : ℕ) (bs : List ℕ)
    → All IsByte (a ∷ b ∷ c ∷ d ∷ [])
    → n ≡ m
    → take m (a ∷ b ∷ c ∷ d ∷ []) ≡ bs
    → take n (word_bytes (word_of a b c d)) ≡ bs
take_of n m a b c d bs h e t = ap₂ take e (word_bytes-word_of a b c d h) ∙ t

-- The reading loop, once the buffer is split at the offset.
read_words-overwrite :
    (peer : Peer) (c : Client) (bs done rest : List ℕ) (offset len : ℕ)
    → offset ≡ length done
    → len ≡ length done + length bs
    → length bs ≤ length rest
    → All IsByte bs
    → Replies peer c.sent (words_of bs)
    → read_words peer (length (words_of bs)) offset len (some (done ++ rest)) c
      ≡ (record c { sent = nops (length (words_of bs)) c.sent }, some (done ++ overwrite bs rest))
unfolding read_words
read_words-overwrite peer c [] done rest offset len ho hl hr hb r = refl
read_words-overwrite peer c (x ∷ []) done rest offset len ho hl hr hb r =
    read_one peer c 0 done rest (x ∷ []) offset len (word_of x 0 0 0) ho (omega arith) r.0
      (take_of (len - offset) 1 x 0 0 0 (x ∷ []) (omega arith) (omega arith) refl)
read_words-overwrite peer c (x ∷ y ∷ []) done rest offset len ho hl hr hb r =
    read_one peer c 0 done rest (x ∷ y ∷ []) offset len (word_of x y 0 0) ho (omega arith) r.0
      (take_of (len - offset) 2 x y 0 0 (x ∷ y ∷ []) (omega arith) (omega arith) refl)
read_words-overwrite peer c (x ∷ y ∷ z ∷ []) done rest offset len ho hl hr hb r =
    read_one peer c 0 done rest (x ∷ y ∷ z ∷ []) offset len (word_of x y z 0) ho (omega arith) r.0
      (take_of (len - offset) 3 x y z 0 (x ∷ y ∷ z ∷ []) (omega arith) (omega arith) refl)
read_words-overwrite peer c (x ∷ y ∷ z ∷ w ∷ bs) done rest offset len ho hl hr hb r =
    let four = x ∷ y ∷ z ∷ w ∷ [] in
    let c1 = record c { sent = nop_word ∷ c.sent } in
    read_one peer c (length (words_of bs)) done rest four offset len (word_of x y z w) ho
      (omega arith) r.0
      (take_of (len - offset) (4 + length bs) x y z w four (omega arith) (omega arith)
        (take_all (4 + length bs) four (omega arith)))
    ∙ ap (λ b. read_words peer (length (words_of bs)) (offset + 4) len (some b) c1)
        (ap (λ t. done ++ t) (overwrite_four x y z w [] rest (omega arith))
          ∙ sym (append_assoc done four (drop 4 rest)))
    ∙ read_words-overwrite peer c1 bs (done ++ four) (drop 4 rest) (offset + 4) len
        (omega (arith, length-append done four)) (omega (arith, length-append done four))
        (omega (arith, length-drop 4 rest)) hb.1.1.1.1 r.1
    ∙ ap (λ b. (record c { sent = nops (length (words_of bs)) (nop_word ∷ c.sent) }, some b))
        (append_assoc done four (overwrite bs (drop 4 rest))
          ∙ ap (λ t. done ++ t) (sym (overwrite_four x y z w bs rest (omega arith))))

-- A payload of bytes that fits the buffer and arrives as the words of its bytes is read into the
-- front of the buffer, the rest of the buffer stays, and the padding of the last word is dropped.
pub read_payload-words_of :
    (peer : Peer) (c : Client) (bs buffer : List ℕ)
    → length bs ≤ length buffer
    → length bs ≤ 4294967292
    → All IsByte bs
    → Replies peer c.sent (words_of bs)
    → read_payload peer c (some buffer) (length bs)
      ≡ (record c { sent = nops (length (words_of bs)) c.sent }, some (overwrite bs buffer))
unfolding read_payload
read_payload-words_of peer c bs buffer hl h32 hb r =
    ap (λ k. read_words peer k 0 (length bs) (some buffer) c)
      (omega (arith, length-words_of bs, aligned_length_lem (length bs)))
    ∙ read_words-overwrite peer c bs [] buffer 0 (length bs) refl (omega arith) hl hb r

read_words-none :
    (peer : Peer) (k offset len : ℕ) (c : Client)
    → read_words peer k offset len none c ≡ (record c { sent = nops k c.sent }, none)
unfolding read_words xfer32
read_words-none peer zero offset len c = refl
read_words-none peer (suc k) offset len c =
    read_words-none peer k (offset + 4) len (record c { sent = nop_word ∷ c.sent })

-- Discarding a payload of at most 4294967292 bytes takes as many words off the link as its padded
-- length has.
pub discard_payload-nops :
    (peer : Peer) (c : Client) (n : ℕ)
    → n ≤ 4294967292
    → discard_payload peer c n ≡ record c { sent = nops ((n + 3) / 4) c.sent }
unfolding discard_payload read_payload
discard_payload-nops peer c n h =
    ap (λ t. t.0) (read_words-none peer (aligned_length n / 4) 0 n c)
    ∙ ap (λ k. record c { sent = nops k c.sent }) words
  where
    words : aligned_length n / 4 ≡ (n + 3) / 4
    words = omega (arith, aligned_length_lem n)
