-- ===== src/Stream/Refine/Commit.antt =====
-- `cl_stream_producer_commit_at` on a valid ring is the queue's `commit`.
use chis_link.Common.{ℕ, ◌+◌, ◌≤◌, ◌<◌, ◌≡◌, ◌≢◌, inl, inr, refl, sym, ap, ◌∙◌, arith}
use chis_link.Common.{
  [], ◌∷◌, ◌++◌, All-append, ◌||◌, ltb, leb, ◌==◌, if◌then◌else◌, set, length-set, get_or-set_self,
  get_or-set_ne, IsU32, u32, pos,
}
use native.Mathlib.Decide.{dec_lt}
use chis_link.Stream.{Stream, empty_slot, read_head, slot_ready, err_full, err_too_large, next_slot}
use chis_link.Stream.{producer_commit_at}
use native.Mathlib.Numerals.{add-one}
use chis_link.Stream.Fifo
use chis_link.Stream.Fifo.{Piece, Fifo, skip}
use chis_link.Stream.Window.{window, length-window, next_slot_lem, window-set-After}
use chis_link.Stream.Pending.{
  IsReady, IsValid, ready_window, pieces, skip_front, pending, length-pieces, pieces-append,
  skip_front-append, length-pending,
}
use chis_link.Stream.Refine.Simulation.{has_slots, Refines, Refines-by}

-- The state after a commit that is accepted.
abbrev pub committed : Stream → ℕ → ℕ → Stream
committed s offset n = record s {
  slots = set s.slots s.write_slot (record { offset = offset; length = n; flags = slot_ready });
  rx_offset = u32 (offset + n);
  write_slot = next_slot s.slot_count s.write_slot;
  ready_slots = s.ready_slots + 1;
}

module _ {s : Stream} (v : IsValid s) (offset n : ℕ) where
  -- What a commit computes on a valid ring.
  pub commit_value : producer_commit_at s offset n ≡ (
      if leb s.slot_count s.ready_slots
      then (s, err_full)
      else if n == 0 || ltb s.slot_size n
      then (s, err_too_large)
      else (committed s offset n, pos 0))
  unfolding producer_commit_at
  commit_value = ground (arith, has_slots s.slots (omega (arith, v.slot_room, v.some_slots)))

  module _ (fits : IsU32 offset) (hn : 0 < n) (hs : n ≤ s.slot_size)
      (more : s.ready_slots < s.slot_count) where
    -- The slot joins the ready ones.
    pub committed_window :
        ready_window (committed s offset n)
        ≡ ready_window s ++ (record { offset = offset; length = n; flags = slot_ready } ∷ [])
    committed_window =
        ap (window s.slot_count (committed s offset n).slots s.read_slot) (add-one s.ready_slots)
        ∙ window-set-After s.slot_count v.few_slots s.slots s.write_slot
            (record { offset = offset; length = n; flags = slot_ready }) s.read_slot s.ready_slots
            v.read_in v.write_in (omega (arith, v.slot_room, v.write_in)) more v.round

    committed_offset :
        0 < s.ready_slots + 1 → s.read_offset < (read_head (committed s offset n)).length
    committed_offset h = elim (dec_lt 0 s.ready_slots) [
      | yes p ↦
          let other : s.write_slot ≢ s.read_slot = omega (arith, v.round, v.read_in, v.write_in) in
          rw
            (get_or-set_ne s.slots (record { offset = offset; length = n; flags = slot_ready })
              empty_slot other)
            (v.offset_in p)
      | no p ↦
          let same : s.write_slot ≡ s.read_slot = omega (arith, v.round, v.read_in, v.write_in) in
          rw
            (
              same,
              get_or-set_self s.slots s.read_slot
                  (record { offset = offset; length = n; flags = slot_ready }) empty_slot
                  (omega (arith, v.slot_room, v.read_in)),
            )
            (omega (arith, v.offset_idle (omega arith)))
    ]

    committed-IsValid : IsValid (committed s offset n)
    committed-IsValid = record {
      buffer_set = v.buffer_set;
      slot_room = omega (
        arith,
        v.slot_room,
        length-set s.slots s.write_slot
            (record { offset = offset; length = n; flags = slot_ready }),
      );
      some_slots = v.some_slots;
      few_slots = v.few_slots;
      some_size = v.some_size;
      size_fits = v.size_fits;
      buffer_room = v.buffer_room;
      read_in = v.read_in;
      write_in = (next_slot_lem s.slot_count s.write_slot v.write_in v.few_slots).0;
      ready_in = omega arith;
      round = omega (
        arith,
        v.round,
        v.read_in,
        next_slot_lem s.slot_count s.write_slot v.write_in v.few_slots,
      );
      data_ready = rw committed_window (
          All-append (IsReady s.slot_size) (ready_window s) _ v.data_ready
            (record { flag = refl; offset_fits = fits; some_bytes = hn; fits = hs }, tt));
      offset_in = committed_offset;
      offset_idle = λ e. absurd (omega arith);
    }

    committed_pending :
        pending (committed s offset n) ≡ pending s ++ (record { offset = offset; count = n } ∷ [])
    committed_pending =
        ap (λ w. skip_front s.read_offset (pieces w)) committed_window
        ∙ ap (skip_front s.read_offset) (pieces-append (ready_window s) _)
        ∙ skip_front-append s.read_offset (pieces (ready_window s))
            (record { offset = offset; count = n }) fits
            (λ e. v.offset_idle (
              omega (
                arith,
                e,
                length-pieces (ready_window s),
                length-window s.slot_count s.slots s.read_slot s.ready_slots,
              )))

-- A commit at a 32-bit offset keeps a ring valid and appends the piece to its queue if a slot is
-- free and the length is from 1 to the slot size; otherwise the queue stays and the result says
-- which failed.
pub commit-Refines :
    {s : Stream} (offset n : ℕ)
    → IsValid s
    → IsU32 offset
    → Refines
        (Fifo.commit s.slot_count s.slot_size (pending s) (record { offset = offset; count = n }))
        (producer_commit_at s offset n)
commit-Refines {s} offset n v fits = elim (dec_lt s.ready_slots s.slot_count) [
  | no p ↦
      Refines-by _ _ s err_full (ground (arith, commit_value v offset n)) v (
        Fifo.commit_full s.slot_count s.slot_size (pending s) new (omega (arith, length-pending v)))
  | yes p ↦ elim (dec_lt 0 n) [
    | no z ↦ Refines-by _ _ s err_too_large (ground (arith, commit_value v offset n)) v (
        Fifo.commit_too_large s.slot_count s.slot_size (pending s) new
          (omega (arith, length-pending v)) (inl (omega arith)))
    | yes some_bytes ↦ elim (dec_lt s.slot_size n) [
      | yes large ↦ Refines-by _ _ s err_too_large (ground (arith, commit_value v offset n)) v (
          Fifo.commit_too_large s.slot_count s.slot_size (pending s) new
            (omega (arith, length-pending v)) (inr large))
      | no le ↦
          Refines-by _ _ (committed s offset n) (pos 0) (ground (arith, commit_value v offset n))
            (committed-IsValid v offset n fits some_bytes (omega arith) p)
            (Fifo.commit_room s.slot_count s.slot_size (pending s) new
                (omega (arith, length-pending v)) some_bytes (omega arith)
              ∙ ap (λ q. (q, pos 0))
                  (sym (committed_pending v offset n fits some_bytes (omega arith) p)))
    ]
  ]
]
  where
    new : Piece
    new = record { offset = offset; count = n }
