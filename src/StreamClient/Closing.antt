-- ===== src/StreamClient/Closing.antt =====
-- How the stream commands of stream_client.c end, for every other end of the link.
use chis_link.Common.{
  ℕ, ◌+◌, ◌/◌, ◌≤◌, ◌≡◌, ◌≢◌, ◌⊎◌, inl, inr, refl, ap, ◌∙◌, arith, [], ◌∷◌, true, not, ◌==◌,
  if◌then◌else◌, if_elim, Option, none, ℤ, pos, is_neg,
}
use chis_link.Proto.{Header}
use chis_link.Proto.Codes.{stream_close, stream_pump}
use chis_link.Client.{Peer, Client}
use chis_link.Wire.{discard_payload}
use chis_link.Wire.Reading.{nops}
use chis_link.Wire.Payload.{discard_payload-nops}
use chis_link.Stream.{Stream, opened, closed, reset}
use chis_link.Stream
use chis_link.StreamClient.{command, le32, request, fail_stream}
use chis_link.StreamClient.Control.{discard_answer, take_closed, close, pump}

-- A command ends with 0, or with a negative result.
abbrev pub Settles : Client × ℤ × Option Header → Type 0
Settles (c, ret, h) = (ret ≡ pos 0) ⊎ (is_neg ret ≡ true)

-- How a closing command leaves the stream.
abbrev pub Closes : Stream → Client × Stream × ℤ → Type 0
Closes s (c, s', ret) =
    ((ret ≡ pos 0) × (s' ≡ record s { stream_id = 0; state = closed }))
    ⊎ ((is_neg ret ≡ true) × (s' ≡ fail_stream s ret))

take_closed-Closes :
    (peer : Peer) (junk : ℕ) (s : Stream) (a : Client × ℤ × Option Header)
    → Closes s (take_closed peer junk s a)
unfolding take_closed
take_closed-Closes peer junk s (c, ret, h) = ground arith

pub close-Closes :
    (peer : Peer) (junk : ℕ) (c : Client) (s : Stream)
    → s.stream_id ≢ 0
    → Closes s (close peer junk c s)
unfolding close
close-Closes peer junk c s h =
    let a = command peer c stream_close (request (le32 s.stream_id) 4 ∷ []) in
    if_elim (Closes s) (s.stream_id == 0) _ _ (λ e. absurd (ground (arith, e, h)))
      (λ _. take_closed-Closes peer junk s a)

-- What a closing command finds after its guard.
after_guard {ℓ} :
    (P : Client × Stream × ℤ → Type ℓ) (s : Stream) (x y : Client × Stream × ℤ)
    → s.stream_id ≢ 0
    → P y
    → P (if s.stream_id == 0 then x else y)
after_guard P s x y h p =
    if_elim P (s.stream_id == 0) x y (λ e. absurd (ground (arith, e, h))) (λ _. p)

-- When pumping an open stream has a negative result, the stream keeps its number and is in the
-- error state: it is not marked as closed.
pub pump_failed :
    (peer : Peer) (junk : ℕ) (c : Client) (s : Stream)
    → s.stream_id ≢ 0
    → is_neg (pump peer junk c s).2 ≡ true
    → ((pump peer junk c s).1.stream_id ≡ s.stream_id)
      × ((pump peer junk c s).1.state ≡ Stream.error)
unfolding pump
pump_failed peer junk c s h =
    let a = command peer c stream_pump (request (le32 s.stream_id) 4 ∷ []) in
    after_guard
      (λ r. is_neg r.2 ≡ true → (r.1.stream_id ≡ s.stream_id) × (r.1.state ≡ Stream.error)) s _ _ h
      (stays (take_closed peer junk s a) (take_closed-Closes peer junk s a))
  where
    stays :
        (r : Client × Stream × ℤ)
        → Closes s r
        → is_neg r.2 ≡ true
        → (r.1.stream_id ≡ s.stream_id) × (r.1.state ≡ Stream.error)
    stays (c1, t, ret) (inl (e, q)) f = absurd (ground (arith, e, f))
    stays (c1, t, ret) (inr (e, q)) f = (ap (λ k. k.stream_id) q, ap (λ k. k.state) q)

discard_answer_lem :
    (peer : Peer) (n : ℕ) (c : Client)
    → n ≤ 4294967292
    → discard_answer peer n c ≡ record c { sent = nops ((n + 3) / 4) c.sent }
discard_answer_lem peer n c h =
    if_elim (λ (d : Client). d ≡ record c { sent = nops ((n + 3) / 4) c.sent }) (not (n == 0))
      (discard_payload peer c n) c (λ _. discard_payload-nops peer c n h)
      (λ e. let z : n ≡ 0 = ground (arith, e) in rw z refl)

-- With a transport, when the exchange of a close fails without a response, the client then sends
-- as many words as the padded length has that its uninitialised response holds, at most
-- 4294967292.
pub close_junk :
    (peer : Peer) (junk : ℕ) (c c1 : Client) (s : Stream) (ret : ℤ)
    → s.stream_id ≢ 0
    → c.has_xfer32 ≡ true
    → junk ≤ 4294967292
    → command peer c stream_close (request (le32 s.stream_id) 4 ∷ []) ≡ (c1, ret, none)
    → (close peer junk c s).0 ≡ record c1 { sent = nops ((junk + 3) / 4) c1.sent }
unfolding close take_closed
close_junk peer junk c c1 s ret h x hj e =
    after_guard (λ r. r.0 ≡ record c1 { sent = nops ((junk + 3) / 4) c1.sent }) s _ _ h
      (ap (λ a. (take_closed peer junk s a).0) e
        ∙ if_elim
            (λ (r : Client × Stream × ℤ). r.0 ≡ record c1 { sent = nops ((junk + 3) / 4) c1.sent })
            (is_neg ret) (discard_answer peer junk c1, fail_stream s ret, ret)
            (discard_answer peer junk c1, record s { stream_id = 0; state = closed }, pos 0)
            (λ _. discard_answer_lem peer junk c1 hj) (λ _. discard_answer_lem peer junk c1 hj))
