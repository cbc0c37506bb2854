-- ===== src/Stream/Bounds.antt =====
-- Where the ring's pointers point: inside the buffer, and never to bytes that both sides use.
use chis_link.Common.{◌+◌, ◌-◌, ◌*◌, ◌≤◌, ◌<◌, ◌≡◌, ◌⊎◌, inl, inr, refl, arith, pos, u32}
use chis_link.Stream.{Stream, Span, View, read_head, producer_acquire, consumer_peek, err_full}
use chis_link.Stream.Pending.{IsValid, head-IsReady}
use chis_link.Stream.Refine.Simulation.{has_slots}
use chis_link.Common.Products.{small_product, slot_end}
use native.Mathlib.Decide.{dec_lt}

abbrev pub span_of : Stream → Span
span_of s = record {
  data_at = s.buffer + s.write_slot * s.slot_size;
  capacity = s.slot_size;
  slot_index = s.write_slot;
}

abbrev pub view_of : Stream → View
view_of s = record {
  data_at = s.buffer + s.read_slot * s.slot_size + s.read_offset;
  offset = u32 ((read_head s).offset + s.read_offset);
  length = (read_head s).length - s.read_offset;
  flags = (read_head s).flags;
  slot_index = s.read_slot;
}

module _ {s : Stream} (v : IsValid s) where
  -- The span that a ring with a free slot gives.
  pub acquire_value : s.ready_slots < s.slot_count → producer_acquire s ≡ (span_of s, pos 0)
  unfolding producer_acquire
  acquire_value h = ground (
    arith,
    has_slots s.slots (omega (arith, v.slot_room, v.some_slots)),
    small_product s.write_slot s.slot_size (omega (arith, v.write_in, v.few_slots)) v.size_fits,
  )

  -- The view of a ring with data.
  pub peek_value : 0 < s.ready_slots → consumer_peek s ≡ (view_of s, pos 0)
  unfolding consumer_peek
  peek_value h = ground (
    arith,
    has_slots s.slots (omega (arith, v.slot_room, v.some_slots)),
    head-IsReady v h,
    v.offset_in h,
    v.size_fits,
    small_product s.read_slot s.slot_size (omega (arith, v.read_in, v.few_slots)) v.size_fits,
  )

-- The writable span of a valid ring with a free slot is one slot inside the buffer; without a free
-- slot the result is FULL and there is no span.
pub acquire_bounds :
    {s : Stream}
    → IsValid s
    → let (span, ret) = producer_acquire s in
      ((s.ready_slots < s.slot_count)
        × (ret ≡ pos 0)
        × (span.capacity ≡ s.slot_size)
        × (s.buffer ≤ span.data_at)
        × (span.data_at + span.capacity ≤ s.buffer + s.buffer_size))
      ⊎ ((s.ready_slots ≡ s.slot_count) × (ret ≡ err_full) × (span.data_at ≡ 0))
unfolding producer_acquire
acquire_bounds {s} v = elim (dec_lt s.ready_slots s.slot_count) [
  | yes p ↦ inl (
      rw (acquire_value v p) (
        p,
        refl,
        refl,
        omega arith,
        omega (arith, slot_end s.write_slot s.slot_count s.slot_size v.write_in, v.buffer_room),
      ))
  | no p ↦ inr (
    omega (arith, v.ready_in),
    ground (arith, has_slots s.slots (omega (arith, v.slot_room, v.some_slots))),
    ground (arith, has_slots s.slots (omega (arith, v.slot_room, v.some_slots))),
  )
]

-- The bytes that a peek at a valid ring with data shows are at least one and lie inside the
-- buffer.
pub peek_bounds :
    {s : Stream}
    → IsValid s
    → 0 < s.ready_slots
    → let (view, ret) = consumer_peek s in
      (ret ≡ pos 0)
      × (0 < view.length)
      × (s.buffer ≤ view.data_at)
      × (view.data_at + view.length ≤ s.buffer + s.buffer_size)
peek_bounds {s} v h = rw (peek_value v h) (
  refl,
  omega (arith, v.offset_in h),
  omega arith,
  omega (
    arith,
    slot_end s.read_slot s.slot_count s.slot_size v.read_in,
    v.buffer_room,
    v.offset_in h,
    (head-IsReady v h).fits,
  ),
)

-- On a valid ring with both a ready and a free slot, the producer's span and the consumer's view
-- do not overlap.
pub acquire_peek_apart :
    {s : Stream}
    → IsValid s
    → 0 < s.ready_slots
    → s.ready_slots < s.slot_count
    → let (span, _) = producer_acquire s in
      let (view, _) = consumer_peek s in
      (span.data_at + span.capacity ≤ view.data_at) ⊎ (view.data_at + view.length ≤ span.data_at)
acquire_peek_apart {s} v h more =
    rw (acquire_value v more, peek_value v h)
      (elim (dec_lt s.write_slot s.read_slot) [
        | yes p ↦ inl (omega (arith, slot_end s.write_slot s.read_slot s.slot_size p))
        | no p ↦
            let q : s.read_slot < s.write_slot = omega (arith, v.round, v.read_in, v.write_in) in
            inr (
              omega (
                arith,
                slot_end s.read_slot s.write_slot s.slot_size q,
                v.offset_in h,
                (head-IsReady v h).fits,
              ))
      ])
