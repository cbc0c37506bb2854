-- ===== src/StreamClient/Delivery.antt =====
-- Where a payload is read to: both ways of stream_read_payload leave it at its place.
use chis_link.Common.{
  ℕ, ◌+◌, ◌-◌, ◌/◌, ◌≤◌, ◌<◌, ◌≡◌, refl, sym, ap, ◌∙◌, arith, List, ◌++◌, take, drop, length,
  length-drop, length-take, overwrite, take-append-drop, take-overwrite, drop-append_length,
  Changes, leb, if_elim, none, some, ℤ, pos, is_neg, false,
}
use mathlib.Core.Path.{subst}
use chis_link.Proto.{aligned_length}
use chis_link.Proto.Frame.{aligned_length_lem}
use chis_link.Client.{Peer, Client}
use chis_link.Wire.Reading.{nops}
use chis_link.StreamClient.{
  FastRead, memory_target, read_target_words, after_fast, read_target, fast_payload_threshold,
}
use chis_link.StreamClient.Arriving.{payload, length-payload, behind, arriving, words_value}
use chis_link.StreamClient.Filling.{Confined}

-- The transport's fast read, where it succeeds, does what the loop does: it writes where it is told to the payload
-- that the other end has next, and takes its words off the link.
abbrev pub Delivers : Peer → FastRead → Type 0
Delivers peer none = Unit {0}
Delivers peer (some fast) =
    (at : ℕ) (memory : List ℕ) (n : ℕ) (log : List ℕ)
    → at + n ≤ length memory
    → Changes at (at + n) memory (fast at memory n log).1
      × (is_neg (fast at memory n log).0 ≡ false
          → (take n (drop at (fast at memory n log).1) ≡ payload peer log n)
            × ((fast at memory n log).2 ≡ nops ((n + 3) / 4) log))

pub Delivers-Confined : (peer : Peer) (fast : FastRead) → Delivers peer fast → Confined fast
Delivers-Confined peer none law = tt
Delivers-Confined peer (some fast) law =
    λ (at : ℕ) (memory : List ℕ) (n : ℕ) (log : List ℕ) (h : at + n ≤ length memory).
      (law at memory n log h).0

-- A successful read of `n` bytes to the place `at` leaves the payload there.
abbrev pub Brought : Peer → ℕ → ℕ → Client → Client × List ℕ × ℤ → Type 0
Brought peer at n c (c', memory', ret) =
    is_neg ret ≡ false → (take n (drop at memory') ≡ payload peer c.sent n) × (c' ≡ behind c n)

module _ (peer : Peer) (at n : ℕ) (memory : List ℕ) (c : Client) (small : n < 65536)
    (room : at + n ≤ length memory) where
  words-Brought :
      (fast : FastRead)
      → Brought peer at n c (
          let (c1, x1) =
            read_target_words peer (aligned_length n / 4) 0 n (memory_target fast at) memory c in
          (c1, x1, pos 0))
  words-Brought fast =
      subst (λ (r : Client × List ℕ). Brought peer at n c (r.0, r.1, pos 0)) (sym value)
        (λ _. (shown, refl))
    where
      bytes : List ℕ
      bytes = payload peer c.sent n

      count : (n + 3) / 4 ≡ aligned_length n / 4
      count = omega (arith, aligned_length_lem n (omega arith))

      whole : n - 0 ≡ n
      whole = omega arith

      pre : List ℕ
      pre = take at memory

      before : at ≡ length pre
      before = omega (arith, length-take at memory)

      value :
          read_target_words peer (aligned_length n / 4) 0 n (memory_target fast at) memory c
          ≡ (behind c n, pre ++ overwrite bytes (drop at memory))
      value =
          ap (λ k. read_target_words peer k 0 n (memory_target fast at) memory c) (sym count)
          ∙ ap (λ m. read_target_words peer ((n + 3) / 4) 0 n (memory_target fast at) m c)
              (sym (take-append-drop at memory))
          ∙ words_value peer fast at ((n + 3) / 4) 0 n pre (drop at memory) c
              (omega (arith, before)) (omega arith) (omega arith)
              (omega (arith, length-drop at memory))
          ∙ ap
              (λ k. (
                behind c n,
                pre ++ overwrite (take k (arriving peer ((n + 3) / 4) c.sent)) (drop at memory),
              ))
              whole

      shown : take n (drop at (pre ++ overwrite bytes (drop at memory))) ≡ bytes
      shown =
          ap (λ k. take n (drop k (pre ++ overwrite bytes (drop at memory)))) before
          ∙ ap (take n) (drop-append_length pre (overwrite bytes (drop at memory)))
          ∙ ap (λ k. take k (overwrite bytes (drop at memory))) (sym (length-payload peer c.sent n))
          ∙ take-overwrite bytes (drop at memory)
              (omega (arith, length-payload peer c.sent n, length-drop at memory))

  after_fast-Brought :
      (r : ℤ × List ℕ × List ℕ)
      → (is_neg r.0 ≡ false
          → (take n (drop at r.1) ≡ payload peer c.sent n) × (r.2 ≡ nops ((n + 3) / 4) c.sent))
      → Brought peer at n c (after_fast c r)
  unfolding after_fast
  after_fast-Brought (ret, x, log) law =
      if_elim (Brought peer at n c) (is_neg ret) _ _ (λ e f. absurd (ground (arith, e, f)))
        (λ e f. ((law e).0, ap (λ t. record c { sent = t }) (law e).1))

  pub read_target-Brought :
      (fast : FastRead)
      → Delivers peer fast
      → Brought peer at n c
          (read_target peer (memory_target fast at) (memory_target fast at).fast n memory c)
  unfolding read_target
  read_target-Brought none law = words-Brought none
  read_target-Brought (some fast) law =
      if_elim (Brought peer at n c) (leb fast_payload_threshold n) _ _
        (λ _. after_fast-Brought (fast at memory n c.sent) (law at memory n c.sent room).1)
        (λ _. words-Brought (some fast))
