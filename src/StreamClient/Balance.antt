-- ===== src/StreamClient/Balance.antt =====
-- How many bytes a ring has pending, and how receiving and releasing change that.
use chis_link.Common.{
  ℕ, zero, suc, ◌+◌, ◌%◌, ◌≤◌, ◌<◌, ◌≡◌, inl, inr, refl, sym, ap, ◌∙◌, arith, [], ◌∷◌, ◌++◌, length,
  ℤ, pos, is_neg,
}
use chis_link.Stream.{Stream, consumer_peek, consumer_release, consumer_release_bytes}
use chis_link.Stream.Fifo.{Fifo, Piece}
use chis_link.Stream.Fifo
use chis_link.Stream.Pending.{pending}
use chis_link.Stream.Bounds.{peek_bounds}
use chis_link.Stream.Refine.Release.{release_bytes-Refines, peek_refines}
use chis_link.StreamClient.Receive.{IsLive, Receives}

-- How many bytes a queue holds.
abbrev pub total : Fifo → ℕ
total [] = 0
total (p ∷ q) = p.count + total q

total-append : (q : Fifo) (p : Piece) → total (q ++ (p ∷ [])) ≡ total q + p.count
total-append [] p = omega arith
total-append (x ∷ q) p = omega (arith, total-append q p)

pub total_none : (q : Fifo) → length q ≡ 0 → total q ≡ 0
total_none [] h = refl
total_none (p ∷ q) h = absurd (omega (arith, h))

-- What the offset of the stream grew by is what the ring has more, and the `n` bytes that were taken.
abbrev pub Balanced : ℕ → Stream → Stream → Type 0
Balanced n s s' =
    (total (pending s') + n + s.rx_offset) % 4294967296
    ≡ (total (pending s) + s'.rx_offset) % 4294967296

pub received-Balanced :
    (s s' : Stream) (ret : ℤ)
    → Receives s (s', ret)
    → Balanced 0 s s' × (total (pending s) ≤ total (pending s'))
received-Balanced s s' ret (v, inl (o, q, e, shape)) = (rw (o, q) (omega arith), rw q (omega arith))
received-Balanced s s' ret (v, inr (n, e, hn, hs, o, q, more, shape)) =
    let t = total-append (pending s) (record { offset = s.rx_offset; count = n }) in
    (rw (o, q, t) (ground arith), rw (q, t) (omega arith))

-- Bytes that leave the front of a queue.
release_total :
    (q : Fifo) (first : Piece) (n : ℕ)
    → ◌≡◌ {A = Piece × ℤ} (first, pos 0) (Fifo.peek q)
    → 0 < n
    → n ≤ first.count
    → (total (Fifo.release_bytes n q).0 + n ≡ total q) × ((Fifo.release_bytes n q).1 ≡ pos 0)
release_total [] first n e hn h = absurd (ground (arith, ap (λ (t : Piece × ℤ). is_neg t.1) e))
release_total (p ∷ q) first zero e hn h = absurd (omega arith)
release_total (p ∷ q) first (suc n) e hn h =
    let same : first.count ≡ p.count = ap (λ (t : Piece × ℤ). t.0.count) e in ground (arith, same)

pub release_offset : (s : Stream) → (consumer_release s).0.rx_offset ≡ s.rx_offset
unfolding consumer_release
release_offset s = ground arith

pub release_bytes_offset :
    (s : Stream) (n : ℕ) → (consumer_release_bytes s n).0.rx_offset ≡ s.rx_offset
unfolding consumer_release_bytes
release_bytes_offset s n = ground (arith, release_offset s)

release_size_lem : (s : Stream) → (consumer_release s).0.buffer_size ≡ s.buffer_size
unfolding consumer_release
release_size_lem s = ground arith

pub release_size : (s : Stream) (n : ℕ) → (consumer_release_bytes s n).0.buffer_size ≡ s.buffer_size
unfolding consumer_release_bytes
release_size s n = ground (arith, release_size_lem s)

release_id_lem : (s : Stream) → (consumer_release s).0.stream_id ≡ s.stream_id
unfolding consumer_release
release_id_lem s = ground arith

pub release_id : (s : Stream) (n : ℕ) → (consumer_release_bytes s n).0.stream_id ≡ s.stream_id
unfolding consumer_release_bytes
release_id s n = ground (arith, release_id_lem s)

release_slot_size_lem : (s : Stream) → (consumer_release s).0.slot_size ≡ s.slot_size
unfolding consumer_release
release_slot_size_lem s = ground arith

pub release_slot_size :
    (s : Stream) (n : ℕ) → (consumer_release_bytes s n).0.slot_size ≡ s.slot_size
unfolding consumer_release_bytes
release_slot_size s n = ground (arith, release_slot_size_lem s)

-- Releasing bytes that a peek shows.
module _ {s : Stream} (v : IsLive s) (n : ℕ) (ready : 0 < s.ready_slots) (hn : 0 < n)
    (h : n ≤ (consumer_peek s).0.length) where
  shown_total :
      (total (Fifo.release_bytes n (pending s)).0 + n ≡ total (pending s))
      × ((Fifo.release_bytes n (pending s)).1 ≡ pos 0)
  shown_total =
      release_total (pending s)
        (record { offset = (consumer_peek s).0.offset; count = (consumer_peek s).0.length }) n
        (ap
            (λ (k : ℤ). (
              record { offset = (consumer_peek s).0.offset; count = (consumer_peek s).0.length },
              k,
            ))
            (sym (peek_bounds v.valid ready).0)
          ∙ peek_refines v.valid)
        hn h

  pub release_shown :
      let r = consumer_release_bytes s n in
      (r.1 ≡ pos 0)
      × IsLive r.0
      × (total (pending r.0) + n ≡ total (pending s))
      × (r.0.rx_offset ≡ s.rx_offset)
  release_shown =
      let (valid, q) = release_bytes-Refines n v.valid in
      (
        ap (λ (t : Fifo × ℤ). t.1) q ∙ shown_total.1,
        record { valid = valid; offset_fits = rw (release_bytes_offset s n) v.offset_fits },
        ap (λ (t : Fifo × ℤ). total t.0 + n) q ∙ shown_total.0,
        release_bytes_offset s n,
      )
