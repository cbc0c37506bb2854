-- ===== src/Stream/Refine/Release.antt =====
-- `cl_stream_consumer_peek`, `cl_stream_consumer_release` and `cl_stream_consumer_release_bytes` on a
-- valid ring are the queue's operations.
use chis_link.Common.{ℕ, zero, suc, ◌+◌, ◌-◌, ◌<◌, ◌≡◌, refl, sym, ap, ◌∙◌, arith}
use chis_link.Common.{List, [], ◌∷◌, All, ltb, if◌then◌else◌, set, length-set, pos}
use mathlib.Core.Path.{subst, ap₂}
use native.Mathlib.Decide.{dec_lt}
use chis_link.Stream.{
  Slot, Stream, read_head, slot_consumed, err_empty, err_too_large, next_slot, release_guard,
}
use chis_link.Stream.{consumer_peek, consumer_release, consumer_release_bytes}
use chis_link.Stream.Fifo
use chis_link.Stream.Fifo.{Piece, Fifo, skip}
use chis_link.Stream.Window.{window, next_slot_lem, window-set-Outside}
use chis_link.Stream.Pending.{
  IsReady, IsValid, ready_window, piece, pieces, skip_front, pending, skip_front_zero, window_first,
  head-IsReady,
}
use chis_link.Common.{some, none}
use chis_link.Stream.Refine.Simulation.{has_slots, Refines, Refines-by}

-- The ready slots behind the first.
abbrev rest : Stream → List Slot
rest s = window s.slot_count s.slots (next_slot s.slot_count s.read_slot) (s.ready_slots - 1)

-- The state after the first slot was released.
abbrev pub released : Stream → Stream
released s = record s {
  slots = set s.slots s.read_slot (record (read_head s) { length = 0; flags = slot_consumed });
  read_offset = 0;
  read_slot = next_slot s.slot_count s.read_slot;
  ready_slots = s.ready_slots - 1;
}

pub pending_first :
    (s : Stream)
    → 0 < s.ready_slots
    → pending s ≡ skip s.read_offset (piece (read_head s)) ∷ pieces (rest s)
pending_first s h = ap (λ w. skip_front s.read_offset (pieces w)) (window_first s h)

module _ {s : Stream} (v : IsValid s) where
  pub pending_none : s.ready_slots ≡ 0 → pending s ≡ []
  pending_none e =
      ap (λ n. skip_front s.read_offset (pieces (window s.slot_count s.slots s.read_slot n))) e

  guard_empty : s.ready_slots ≡ 0 → release_guard s ≡ some err_empty
  unfolding release_guard
  guard_empty e = ground (arith, has_slots s.slots (omega (arith, v.slot_room, v.some_slots)))

  module _ (h : 0 < s.ready_slots) where
    guard_passed : release_guard s ≡ none
    unfolding release_guard
    guard_passed = ground (
      arith,
      has_slots s.slots (omega (arith, v.slot_room, v.some_slots)),
      head-IsReady v h,
      v.offset_in h,
    )

    rest_kept : ready_window (released s) ≡ rest s
    rest_kept =
        window-set-Outside s.slot_count v.few_slots s.slots s.read_slot
          (record (read_head s) { length = 0; flags = slot_consumed })
          (next_slot s.slot_count s.read_slot) (s.ready_slots - 1)
          (next_slot_lem s.slot_count s.read_slot v.read_in v.few_slots).0 v.read_in
          (omega (
            arith,
            v.ready_in,
            v.read_in,
            next_slot_lem s.slot_count s.read_slot v.read_in v.few_slots,
          ))

    rest-IsReady : All (IsReady s.slot_size) (ready_window (released s))
    rest-IsReady =
        subst (All (IsReady s.slot_size)) (sym rest_kept)
          (subst (All (IsReady s.slot_size)) (window_first s h) v.data_ready).1

    released_offset : 0 < s.ready_slots - 1 → 0 < (read_head (released s)).length
    released_offset more =
        (subst (All (IsReady s.slot_size)) (window_first (released s) more)
          rest-IsReady).0.some_bytes

    released-IsValid : IsValid (released s)
    released-IsValid = record {
      buffer_set = v.buffer_set;
      slot_room = omega (
        arith,
        v.slot_room,
        length-set s.slots s.read_slot (record (read_head s) { length = 0; flags = slot_consumed }),
      );
      some_slots = v.some_slots;
      few_slots = v.few_slots;
      some_size = v.some_size;
      size_fits = v.size_fits;
      buffer_room = v.buffer_room;
      read_in = (next_slot_lem s.slot_count s.read_slot v.read_in v.few_slots).0;
      write_in = v.write_in;
      ready_in = omega (arith, v.ready_in);
      round = omega (
        arith,
        v.round,
        v.read_in,
        v.write_in,
        next_slot_lem s.slot_count s.read_slot v.read_in v.few_slots,
      );
      data_ready = rest-IsReady;
      offset_in = released_offset;
      offset_idle = λ e. refl;
    }

    rest_pending : pieces (rest s) ≡ pending (released s)
    rest_pending =
        ap pieces (sym rest_kept)
        ∙ sym (skip_front_zero s.slot_size (ready_window (released s)) rest-IsReady)

    released_pending : pending s ≡ skip s.read_offset (piece (read_head s)) ∷ pending (released s)
    released_pending =
        pending_first s h ∙ ap (λ q. skip s.read_offset (piece (read_head s)) ∷ q) rest_pending

    release_value : consumer_release s ≡ (released s, pos 0)
    unfolding consumer_release
    release_value = rw (guard_passed, consumer_release)

-- A release keeps a ring valid and drops the oldest piece of its queue; on an empty ring it
-- changes nothing and says so.
pub release-Refines :
    {s : Stream} → IsValid s → Refines (Fifo.release (pending s)) (consumer_release s)
release-Refines {s} v = elim (dec_lt 0 s.ready_slots) [
  | yes h ↦
      Refines-by _ _ (released s) (pos 0) (release_value v h) (released-IsValid v h)
        (ap Fifo.release (released_pending v h))
  | no h ↦ Refines-by _ _ s err_empty (release_none (omega arith)) v (
      ap Fifo.release (pending_none v (omega arith))
      ∙ ap (λ q. (q, err_empty)) (sym (pending_none v (omega arith))))
]
  where
    release_none : s.ready_slots ≡ 0 → consumer_release s ≡ (s, err_empty)
    release_none e = unfold consumer_release in rw (guard_empty v e, consumer_release)

-- The state after `n` bytes of the first slot were released, and more are left.
abbrev pub advanced : Stream → ℕ → Stream
advanced s n = record s { read_offset = s.read_offset + n }

module _ {s : Stream} (v : IsValid s) (n : ℕ) (h : 0 < s.ready_slots) where
  -- What a release of bytes computes on a valid ring with data.
  pub bytes_value :
      0 < n
      → consumer_release_bytes s n ≡ (
          let remaining = (read_head s).length - s.read_offset in
          if ltb remaining n
          then (s, err_too_large)
          else if ltb n remaining
          then (advanced s n, pos 0)
          else (released s, pos 0))
  unfolding consumer_release_bytes
  bytes_value some_bytes =
      ground
        (arith, guard_passed v h, release_value v h, head-IsReady v h, v.size_fits, v.offset_in h)

  advanced-IsValid : n < (read_head s).length - s.read_offset → IsValid (advanced s n)
  advanced-IsValid lt = record {
    buffer_set = v.buffer_set;
    slot_room = v.slot_room;
    some_slots = v.some_slots;
    few_slots = v.few_slots;
    some_size = v.some_size;
    size_fits = v.size_fits;
    buffer_room = v.buffer_room;
    read_in = v.read_in;
    write_in = v.write_in;
    ready_in = v.ready_in;
    round = v.round;
    data_ready = v.data_ready;
    offset_in = λ p. omega arith;
    offset_idle = λ e. absurd (omega arith);
  }

skip-skip : (a b : ℕ) (p : Piece) → skip b (skip a p) ≡ skip (a + b) p
skip-skip a b p = ground arith

-- The branches of the queue's release of `n` bytes, at a queue with a first piece.
module _ (n : ℕ) (p : Piece) (q : Fifo) where
  front_large : p.count < n → Fifo.release_front n (p ∷ q) ≡ (p ∷ q, err_too_large)
  front_large h = ground arith

  front_part : n < p.count → Fifo.release_front n (p ∷ q) ≡ (skip n p ∷ q, pos 0)
  front_part h = ground arith

  front_whole : n ≡ p.count → Fifo.release_front n (p ∷ q) ≡ (q, pos 0)
  front_whole h = ground arith

module _ {s : Stream} (v : IsValid s) (n : ℕ) where
  bytes_none : s.ready_slots ≡ 0 → 0 < n → consumer_release_bytes s n ≡ (s, err_empty)
  unfolding consumer_release_bytes
  bytes_none e h = ground (arith, guard_empty v e)

  release_some :
      (h : 0 < s.ready_slots)
      → 0 < n
      → Refines
          (Fifo.release_front n (skip s.read_offset (piece (read_head s)) ∷ pending (released s)))
          (consumer_release_bytes s n)
  release_some h some_bytes = elim (dec_lt left n) [
    | yes large ↦ Refines-by _ _ s err_too_large (ground (arith, bytes_value v n h some_bytes)) v (
        front_large n first (pending (released s)) large
        ∙ ap (λ q. (q, err_too_large)) (sym (released_pending v h)))
    | no le ↦ elim (dec_lt n left) [
      | yes part ↦
          Refines-by _ _ (advanced s n) (pos 0) (ground (arith, bytes_value v n h some_bytes))
            (advanced-IsValid v n h part)
            (front_part n first (pending (released s)) part ∙ ap (λ q. (q, pos 0)) (sym shorter))
      | no ge ↦
          Refines-by _ _ (released s) (pos 0) (ground (arith, bytes_value v n h some_bytes))
            (released-IsValid v h) (front_whole n first (pending (released s)) (omega arith))
    ]
  ]
    where
      left : ℕ
      left = (read_head s).length - s.read_offset

      first : Piece
      first = skip s.read_offset (piece (read_head s))

      shorter : pending (advanced s n) ≡ skip n first ∷ pending (released s)
      shorter =
          pending_first (advanced s n) h
          ∙ ap₂ ◌∷◌ (sym (skip-skip s.read_offset n (piece (read_head s)))) (rest_pending v h)

-- Releasing bytes keeps a ring valid and takes them from the front of the oldest piece, which goes
-- with its last byte; going past its end is refused.
pub release_bytes-Refines :
    {s : Stream} (n : ℕ)
    → IsValid s
    → Refines (Fifo.release_bytes n (pending s)) (consumer_release_bytes s n)
release_bytes-Refines {s} zero v = unfold consumer_release_bytes in (v, refl)
release_bytes-Refines {s} (suc n) v = elim (dec_lt 0 s.ready_slots) [
  | no h ↦ Refines-by _ _ s err_empty (bytes_none v (suc n) (omega arith) (omega arith)) v (
      ap (Fifo.release_bytes (suc n)) (pending_none v (omega arith))
      ∙ ap (λ q. (q, err_empty)) (sym (pending_none v (omega arith))))
  | yes h ↦
      subst (λ q. Refines (Fifo.release_front (suc n) q) (consumer_release_bytes s (suc n)))
        (sym (released_pending v h)) (release_some v (suc n) h (omega arith))
]

-- A peek on a valid ring returns the queue's oldest piece, less what was read of it, and reports
-- an empty ring.
pub peek_refines :
    {s : Stream}
    → IsValid s
    → let (view, ret) = consumer_peek s in
      (record { offset = view.offset; count = view.length }, ret) ≡ Fifo.peek (pending s)
unfolding consumer_peek
peek_refines {s} v = elim (dec_lt 0 s.ready_slots) [
  | yes h ↦
      subst
        (λ q.
          (
            record { offset = (consumer_peek s).0.offset; count = (consumer_peek s).0.length },
            (consumer_peek s).1,
          )
          ≡ Fifo.peek q)
        (sym (released_pending v h))
        (ground (
          arith,
          has_slots s.slots (omega (arith, v.slot_room, v.some_slots)),
          head-IsReady v h,
          v.offset_in h,
          v.size_fits,
        ))
  | no h ↦
      subst
        (λ q.
          (
            record { offset = (consumer_peek s).0.offset; count = (consumer_peek s).0.length },
            (consumer_peek s).1,
          )
          ≡ Fifo.peek q)
        (sym (pending_none v (omega arith)))
        (ground (arith, has_slots s.slots (omega (arith, v.slot_room, v.some_slots))))
]
