-- ===== src/StreamClient/Contents.antt =====
-- The bytes that a ring has pending, in the order of the stream, and what a release leaves of them.
use chis_link.Common.{
  ℕ, zero, suc, ◌+◌, ◌-◌, ◌*◌, ◌≤◌, ◌<◌, ◌≡◌, refl, sym, ap, ◌∙◌, arith, List, [], ◌++◌, take, drop,
  length, get_or, set, length-take, length-drop, length-append, take-append_le, drop-append_le,
  drop-append_length, drop-drop, take-drop-take, get_or-set_ne, ℤ, pos,
}
use chis_link.Common.Products.{slot_end}
use mathlib.Core.Path.{ap₂}
use native.Mathlib.Decide.{dec_lt}
use chis_link.Stream.{Stream, Slot, empty_slot, read_head, next_slot, consumer_release_bytes}
use chis_link.Stream.Window.{Outside, next_slot_lem}
use chis_link.Stream.Pending.{IsValid, head-IsReady}
use chis_link.Stream.Refine.Release.{advanced, released, bytes_value}

-- The bytes of the `n` slots from index `at` on, in a buffer with the bytes `memory`.
abbrev pub ring_bytes : ℕ → ℕ → List Slot → List ℕ → ℕ → ℕ → List ℕ
ring_bytes count size slots memory at zero = []
ring_bytes count size slots memory at (suc n) =
    take (get_or slots at empty_slot).length (drop (at * size) memory)
    ++ ring_bytes count size slots memory (next_slot count at) n

-- What the application has still to read.
abbrev pub contents : Stream → List ℕ → List ℕ
contents s memory =
    drop s.read_offset
      (ring_bytes s.slot_count s.slot_size s.slots memory s.read_slot s.ready_slots)

-- A slot outside a run may change.
ring_bytes-set :
    (count size : ℕ) (slots : List Slot) (memory : List ℕ) (i : ℕ) (x : Slot) (at n : ℕ)
    → count < 256
    → at < count
    → i < count
    → Outside count at n i
    → ring_bytes count size (set slots i x) memory at n ≡ ring_bytes count size slots memory at n
ring_bytes-set count size slots memory i x at zero small ha hi out = refl
ring_bytes-set count size slots memory i x at (suc n) small ha hi out =
    ap₂ (λ (slot : Slot) rest. take slot.length (drop (at * size) memory) ++ rest)
      (get_or-set_ne slots x empty_slot (omega arith))
      (ring_bytes-set count size slots memory i x (next_slot count at) n small
        (omega (arith, next_slot_lem count at ha small)) hi
        (omega (arith, next_slot_lem count at ha small)))

-- The bytes of the first slot that are left, and those of the rest of the ring.
module _ {s : Stream} (v : IsValid s) (memory : List ℕ) (room : s.buffer_size ≤ length memory)
    (ready : 0 < s.ready_slots) where
  abbrev start : ℕ
  start = s.read_slot * s.slot_size

  abbrev first : List ℕ
  first = take (read_head s).length (drop start memory)

  abbrev others : List ℕ
  others =
      ring_bytes s.slot_count s.slot_size s.slots memory (next_slot s.slot_count s.read_slot)
        (s.ready_slots - 1)

  length-first : length first ≡ (read_head s).length
  length-first = omega (
    arith,
    length-take (read_head s).length (drop start memory),
    length-drop start memory,
    (head-IsReady v ready).fits,
    v.buffer_room,
    slot_end s.read_slot s.slot_count s.slot_size v.read_in,
  )

  split :
      (n : ℕ)
      → 0 < n
      → ring_bytes s.slot_count s.slot_size s.slots memory s.read_slot n
        ≡ first
          ++ ring_bytes s.slot_count s.slot_size s.slots memory
              (next_slot s.slot_count s.read_slot)
              (n - 1)
  split zero h = absurd (omega arith)
  split (suc n) h =
      ap
        (λ k.
          first
          ++ ring_bytes s.slot_count s.slot_size s.slots memory (next_slot s.slot_count s.read_slot)
              k)
        (omega arith)

  contents-first : contents s memory ≡ drop s.read_offset first ++ others
  contents-first =
      ap (drop s.read_offset) (split s.ready_slots ready)
      ∙ drop-append_le s.read_offset first others (omega (arith, length-first, v.offset_in ready))

  pub offset_within :
      s.read_offset
      ≤ length (ring_bytes s.slot_count s.slot_size s.slots memory s.read_slot s.ready_slots)
  offset_within = omega (
    arith,
    ap length (split s.ready_slots ready),
    length-append first others,
    length-first,
    v.offset_in ready,
  )

  -- What a view shows is the front of what is pending.
  pub contents-view :
      (n : ℕ)
      → n ≤ (read_head s).length - s.read_offset
      → take n (drop (start + s.read_offset) memory) ≡ take n (contents s memory)
  contents-view n h = sym (
      ap (take n) contents-first
      ∙ take-append_le n (drop s.read_offset first) others
          (omega (arith, length-first, length-drop s.read_offset first))
      ∙ take-drop-take n s.read_offset (read_head s).length (drop start memory)
          (omega (arith, v.offset_in ready))
      ∙ ap (take n) (drop-drop s.read_offset start memory))

  pub view_length :
      (n : ℕ)
      → n ≤ (read_head s).length - s.read_offset
      → length (take n (drop (start + s.read_offset) memory)) ≡ n
  view_length n h = omega (
    arith,
    length-take n (drop (start + s.read_offset) memory),
    length-drop (start + s.read_offset) memory,
    (head-IsReady v ready).fits,
    v.offset_in ready,
    v.buffer_room,
    slot_end s.read_slot s.slot_count s.slot_size v.read_in,
  )

  contents-advanced : (n : ℕ) → contents (advanced s n) memory ≡ drop n (contents s memory)
  contents-advanced n = sym (drop-drop n s.read_offset _)

  contents-released :
      contents (released s) memory ≡ drop ((read_head s).length - s.read_offset) (contents s memory)
  contents-released =
      ring_bytes-set s.slot_count s.slot_size s.slots memory s.read_slot _
        (next_slot s.slot_count s.read_slot) (s.ready_slots - 1) v.few_slots
        (next_slot_lem s.slot_count s.read_slot v.read_in v.few_slots).0 v.read_in
        (omega (
          arith,
          v.ready_in,
          v.read_in,
          next_slot_lem s.slot_count s.read_slot v.read_in v.few_slots,
        ))
      ∙ sym (
          ap (drop ((read_head s).length - s.read_offset)) contents-first
          ∙ ap (λ k. drop k (drop s.read_offset first ++ others))
              (omega (arith, length-drop s.read_offset first, length-first))
          ∙ drop-append_length (drop s.read_offset first) others)

  -- A release of bytes that a peek shows drops them from the front.
  pub release_bytes-contents :
      (n : ℕ)
      → 0 < n
      → n ≤ (read_head s).length - s.read_offset
      → contents (consumer_release_bytes s n).0 memory ≡ drop n (contents s memory)
  release_bytes-contents n hn h = elim (dec_lt n ((read_head s).length - s.read_offset)) [
    | yes part ↦
        ap (λ (r : Stream × ℤ). contents r.0 memory) (value_part part) ∙ contents-advanced n
    | no whole ↦
        ap (λ (r : Stream × ℤ). contents r.0 memory) (value_whole (omega arith))
        ∙ contents-released
        ∙ ap (λ k. drop k (contents s memory)) (omega arith)
  ]
    where
      value_part :
          n < (read_head s).length - s.read_offset
          → consumer_release_bytes s n ≡ (advanced s n, pos 0)
      value_part part = bytes_value v n ready hn ∙ ground arith

      value_whole :
          n ≡ (read_head s).length - s.read_offset
          → consumer_release_bytes s n ≡ (released s, pos 0)
      value_whole whole = bytes_value v n ready hn ∙ ground arith
