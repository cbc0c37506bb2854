-- ===== src/StreamClient/Seeking.antt =====
-- `cl_stream_seek`: where the stream is after it.
use chis_link.Common.{
  ℕ, ◌≡◌, ◌≢◌, ◌⊎◌, inl, inr, refl, arith, [], true, ◌==◌, if_elim, u32, ℤ, pos, is_neg,
}
use chis_link.Client.{Peer, Client}
use chis_link.Stream.{Stream, opened, reset}
use chis_link.Stream
use chis_link.Stream.Pending.{pending}
use chis_link.Stream.Refine.Init.{reset-IsValid}
use chis_link.StreamClient.Control.{take_done, seek}
use chis_link.StreamClient.Receive.{IsLive}

-- A seek to an offset has moved the stream, or has failed and left its position.
abbrev pub Moves : Stream → ℕ → Client × Stream × ℤ → Type 0
Moves s offset (c, t, ret) =
    ((ret ≡ pos 0)
      × (t.state ≡ opened)
      × (t.stream_id ≡ s.stream_id)
      × (t.rx_offset ≡ u32 offset)
      × (pending t ≡ []))
    ⊎ ((is_neg ret ≡ true)
        × (t.state ≡ Stream.error)
        × (t.stream_id ≡ s.stream_id)
        × (t.rx_offset ≡ s.rx_offset)
        × (pending t ≡ pending s))

-- Seeking on an open stream with a valid ring and a 32-bit offset ends with 0 and an open stream
-- of the same number whose queue is empty and whose offset is the lower half of the one asked for,
-- or with a negative result, the error state, and the number, the offset and the queue as they
-- were.
pub seek-Moves :
    (peer : Peer) (junk : ℕ) (c : Client) (s : Stream) (offset : ℕ)
    → IsLive s
    → s.stream_id ≢ 0
    → Moves s offset (seek peer junk c s offset)
unfolding seek take_done
seek-Moves peer junk c s offset v h =
    if_elim (Moves s offset) (s.stream_id == 0) _ _ (λ e. absurd (ground (arith, e, h)))
      (λ _.
        if_elim (Moves s offset) (is_neg _) _ _ (λ e. inr (e, refl, refl, refl, refl))
          (λ _. inl (refl, refl, refl, refl, (reset-IsValid v.valid).1)))
