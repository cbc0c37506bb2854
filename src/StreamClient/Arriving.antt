-- ===== src/StreamClient/Arriving.antt =====
-- What a payload of the other end brings, and that the receiving loop stores it.
use chis_link.Common.{
  ℕ, zero, suc, ◌+◌, ◌-◌, ◌*◌, ◌/◌, ◌%◌, ◌^◌, ◌≤◌, ◌≡◌, refl, sym, ap, ◌∙◌, arith, List, [], ◌∷◌,
  ◌++◌, append_assoc, take, drop, length, length-append, length-drop, length-take, overwrite, ltb,
  if◌then◌else◌,
}
use native.Mathlib.Decide.{dec_lt}
use chis_link.Proto.{store_le32}
use chis_link.Proto.Bytes.{word_bytes}
use chis_link.Client.{Peer, Client, xfer32}
use chis_link.Wire.{nop_word}
use chis_link.Wire.Reading.{nops}
use chis_link.Wire.Payload.{stored_at, overwrite_four}
use chis_link.StreamClient.{FastRead, memory_target, read_target_words}

-- The bytes of the next `k` words of the other end, each the answer to an idle word.
abbrev pub arriving : Peer → ℕ → List ℕ → List ℕ
arriving peer zero log = []
arriving peer (suc k) log = word_bytes (peer (nop_word ∷ log)) ++ arriving peer k (nop_word ∷ log)

-- A payload of `n` bytes: the last word's padding is dropped.
abbrev pub payload : Peer → List ℕ → ℕ → List ℕ
payload peer log n = take n (arriving peer ((n + 3) / 4) log)

-- The client behind a payload of `n` bytes.
abbrev pub behind : Client → ℕ → Client
behind c n = record c { sent = nops ((n + 3) / 4) c.sent }

length-arriving : (peer : Peer) (k : ℕ) (log : List ℕ) → length (arriving peer k log) ≡ 4 * k
length-arriving peer zero log = refl
length-arriving peer (suc k) log = omega (arith, length-arriving peer k (nop_word ∷ log))

pub length-payload : (peer : Peer) (log : List ℕ) (n : ℕ) → length (payload peer log n) ≡ n
length-payload peer log n =
    omega (
      arith,
      length-take n (arriving peer ((n + 3) / 4) log),
      length-arriving peer ((n + 3) / 4) log,
    )

-- A word is stored whole, and the bytes behind it behind that.
first_word :
    (v : ℕ) (pre bs rest : List ℕ)
    → 4 ≤ length rest
    → pre ++ overwrite (word_bytes v ++ bs) rest
      ≡ (pre ++ word_bytes v) ++ overwrite bs (drop 4 rest)
first_word v pre bs rest h =
    ap (λ t. pre ++ t)
      (overwrite_four (v % 256) (v / 2 ^ 8 % 256) (v / 2 ^ 16 % 256) (v / 2 ^ 24 % 256) bs rest h)
    ∙ sym (append_assoc pre (word_bytes v) (overwrite bs (drop 4 rest)))

take_word :
    (v : ℕ) (bs : List ℕ) (n m : ℕ)
    → n ≡ suc (suc (suc (suc m)))
    → take n (word_bytes v ++ bs) ≡ word_bytes v ++ take m bs
take_word v bs n m e = ap (λ k. take k (word_bytes v ++ bs)) e

module _ (peer : Peer) (fast : FastRead) (at : ℕ) where
  -- One round of the loop.
  round_value :
      (left offset n valid : ℕ) (pre rest : List ℕ) (c : Client)
      → at + offset ≡ length pre
      → (if ltb 4 (n - offset) then 4 else n - offset) ≡ valid
      → read_target_words peer (suc left) offset n (memory_target fast at) (pre ++ rest) c
        ≡ read_target_words peer left
            (offset + 4)
            n
            (memory_target fast at)
            (pre ++ overwrite (take valid (word_bytes (peer (nop_word ∷ c.sent)))) rest)
            (record c { sent = nop_word ∷ c.sent })
  unfolding read_target_words xfer32
  round_value left offset n valid pre rest c h e =
      ap
        (λ memory.
          read_target_words peer left (offset + 4) n (memory_target fast at) memory
            (record c { sent = nop_word ∷ c.sent }))
        (ap
            (λ k.
              take (at + offset) (pre ++ rest)
              ++ store_le32 (drop (at + offset) (pre ++ rest)) (peer (nop_word ∷ c.sent)) k)
            e
          ∙ stored_at pre rest (at + offset) (peer (nop_word ∷ c.sent)) valid h)

  -- No word is left.
  last :
      (left offset n : ℕ) (memory : List ℕ) (c : Client)
      → left ≡ 0
      → read_target_words peer left offset n (memory_target fast at) memory c
        ≡ (record c { sent = nops left c.sent }, memory)
  unfolding read_target_words
  last zero offset n memory c e = refl
  last (suc left) offset n memory c e = absurd (omega arith)

  pub words_value :
      (left offset n : ℕ) (pre rest : List ℕ) (c : Client)
      → at + offset ≡ length pre
      → offset + 4 * left ≤ n + 3
      → n ≤ offset + 4 * left
      → n - offset ≤ length rest
      → read_target_words peer left offset n (memory_target fast at) (pre ++ rest) c ≡ (
        record c { sent = nops left c.sent },
        pre ++ overwrite (take (n - offset) (arriving peer left c.sent)) rest,
      )
  unfolding read_target_words
  words_value zero offset n pre rest c h lo hi room =
      let done : 0 ≡ n - offset = omega arith in
      ap (λ k. (c, pre ++ overwrite (take k []) rest)) done
  words_value (suc left) offset n pre rest c h lo hi room =
      let v = peer (nop_word ∷ c.sent) in
      let c1 = record c { sent = nop_word ∷ c.sent } in
      let more = arriving peer left c1.sent in
      elim (dec_lt 4 (n - offset)) [
        | yes big ↦
            round_value left offset n 4 pre rest c h (ground (arith, big))
            ∙ ap
                (λ memory.
                  read_target_words peer left (offset + 4) n (memory_target fast at) memory c1)
                (first_word v pre [] rest (omega (arith, room)))
            ∙ words_value left (offset + 4) n (pre ++ word_bytes v) (drop 4 rest) c1
                (omega (arith, length-append pre (word_bytes v))) (omega (arith, lo))
                (omega (arith, hi)) (omega (arith, length-drop 4 rest))
            ∙ ap (λ t. (record c { sent = nops left c1.sent }, t))
                (sym (
                  ap (λ t. pre ++ overwrite t rest)
                    (take_word v more (n - offset) (n - (offset + 4)) (omega (arith, big)))
                  ∙ first_word v pre (take (n - (offset + 4)) more) rest (omega (arith, room))))
        | no few ↦
            let none_left : left ≡ 0 = omega (arith, few) in
            round_value left offset n (n - offset) pre rest c h (ground (arith, few))
            ∙ last left (offset + 4) n (pre ++ overwrite (take (n - offset) (word_bytes v)) rest) c1
                none_left
            ∙ ap
                (λ k. (
                  record c { sent = nops left c1.sent },
                  pre
                      ++ overwrite (take (n - offset) (word_bytes v ++ arriving peer k c1.sent))
                          rest,
                ))
                (sym none_left)
      ]
