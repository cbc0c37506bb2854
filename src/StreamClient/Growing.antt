-- ===== src/StreamClient/Growing.antt =====
-- A slot that is received puts its bytes behind those that are pending.
use chis_link.Common.{
  ℕ, zero, suc, ◌+◌, ◌*◌, ◌≤◌, ◌<◌, ◌≡◌, ◌≢◌, ◌⊎◌, inl, inr, refl, sym, ap, ◌∙◌, arith, List, [],
  ◌++◌, append-nil, append_assoc, take, drop, length, All, get_or, set, get_or-set_self,
  get_or-set_ne, drop-append_le, Changes, take-drop-Changes, drop-Changes, ℤ, pos, neg, is_neg,
  true, not, ◌||◌, ◌==◌, if_elim, length-take, length-drop,
}
use chis_link.Common.Products.{slot_end}
use mathlib.Core.Path.{ap₂, subst}
use native.Mathlib.Decide.{dec_lt}
use chis_link.Client.{Peer}
use native.Mathlib.Numerals.{add-one}
use chis_link.Stream.{Stream, Slot, empty_slot, next_slot, slot_ready, can_receive, free_count}
use chis_link.Stream.Window.{window, After, Outside, next_slot_lem}
use chis_link.Stream.Pending.{IsReady}
use chis_link.Stream.Refine.Commit.{committed}
use chis_link.StreamClient.{FastRead, Port, recv_slot}
use chis_link.StreamClient.Receive.{IsLive, Receives, recv_slot-Receives}
use chis_link.StreamClient.Contents.{ring_bytes, contents, offset_within}
use chis_link.StreamClient.Filling.{Confined, recv_slot-Changes}

module _ (count size : ℕ) (small : count < 256) (slots : List Slot) (memory memory' : List ℕ)
    (w : ℕ) (hw : w < count) (changed : Changes (w * size) (w * size + size) memory memory') where
  -- Another slot's bytes stay.
  slot_kept :
      (at n : ℕ)
      → at ≢ w
      → n ≤ size
      → take n (drop (at * size) memory') ≡ take n (drop (at * size) memory)
  slot_kept at n ne le = elim (dec_lt at w) [
    | yes p ↦
        take-drop-Changes (w * size) (w * size + size) (at * size) n memory memory' changed
          (omega (arith, slot_end at w size p))
    | no p ↦
        let q : w < at = omega (arith, ne) in
        ap (take n) (
          drop-Changes (w * size) (w * size + size) (at * size) memory memory' changed
            (omega (arith, slot_end w at size q)))
  ]

  run_kept :
      (at n : ℕ)
      → at < count
      → Outside count at n w
      → All (IsReady size) (window count slots at n)
      → ring_bytes count size slots memory' at n ≡ ring_bytes count size slots memory at n
  run_kept at zero ha out ready = refl
  run_kept at (suc n) ha out ready =
      ap₂ ◌++◌ (slot_kept at (get_or slots at empty_slot).length (omega (arith, out)) ready.0.fits)
        (run_kept (next_slot count at) n (omega (arith, next_slot_lem count at ha small))
          (omega (arith, next_slot_lem count at ha small)) ready.1)

  run_grows :
      (x : Slot) (at n : ℕ)
      → at < count
      → w < length slots
      → n < count
      → After count at n w
      → All (IsReady size) (window count slots at n)
      → ring_bytes count size (set slots w x) memory' at (suc n)
        ≡ ring_bytes count size slots memory at n ++ take x.length (drop (w * size) memory')
  run_grows x at zero ha room few after ready =
      let e : w ≡ at = omega arith in
      append-nil _
      ∙ ap (λ k. take (get_or (set slots w x) k empty_slot).length (drop (k * size) memory'))
          (sym e)
      ∙ ap (λ (slot : Slot). take slot.length (drop (w * size) memory'))
          (get_or-set_self slots w x empty_slot room)
  run_grows x at (suc n) ha room few after ready =
      let ne : at ≢ w = omega arith in
      ap₂ ◌++◌
        (ap (λ (slot : Slot). take slot.length (drop (at * size) memory'))
            (get_or-set_ne slots x empty_slot (omega arith))
          ∙ slot_kept at (get_or slots at empty_slot).length ne ready.0.fits)
        (run_grows x (next_slot count at) n (omega (arith, next_slot_lem count at ha small)) room
          (omega arith) (omega (arith, next_slot_lem count at ha small)) ready.1)
      ∙ sym (append_assoc (take (get_or slots at empty_slot).length (drop (at * size) memory)) _ _)

-- The pending bytes are followed by as many as the result counts.
abbrev pub Grows : Port → Port × ℤ → Type 0
Grows p (p', ret) =
    (bytes : List ℕ) × (contents p'.stream p'.memory ≡ contents p.stream p.memory ++ bytes)
    × (((bytes ≡ []) × ((ret ≡ pos 0) ⊎ (is_neg ret ≡ true))) ⊎ (ret ≡ pos (length bytes)))
    × (length p'.memory ≡ length p.memory)
    × (p'.stream.buffer_size ≡ p.stream.buffer_size)

module _ (s : Stream) (v : IsLive s) (memory memory' : List ℕ)
    (room : s.buffer_size ≤ length memory)
    (changed : Changes
      (s.write_slot * s.slot_size)
      (s.write_slot * s.slot_size + s.slot_size)
      memory
      memory') where
  offset_inside :
      s.read_offset
      ≤ length (ring_bytes s.slot_count s.slot_size s.slots memory s.read_slot s.ready_slots)
  offset_inside = elim (dec_lt 0 s.ready_slots) [
    | yes h ↦ offset_within v.valid memory room h
    | no h ↦ omega (arith, v.valid.offset_idle (omega arith))
  ]

  pub contents-committed :
      (offset n : ℕ)
      → s.ready_slots < s.slot_count
      → contents (committed s offset n) memory'
        ≡ contents s memory ++ take n (drop (s.write_slot * s.slot_size) memory')
  contents-committed offset n more =
      let slot : Slot = record { offset = offset; length = n; flags = slot_ready } in
      ap
        (λ k. drop s.read_offset (
          ring_bytes s.slot_count s.slot_size (set s.slots s.write_slot slot) memory' s.read_slot
            k))
        (add-one s.ready_slots)
      ∙ ap (drop s.read_offset) (
          run_grows s.slot_count s.slot_size v.valid.few_slots s.slots memory memory' s.write_slot
            v.valid.write_in changed slot s.read_slot s.ready_slots v.valid.read_in
            (omega (arith, v.valid.slot_room, v.valid.write_in)) more v.valid.round
            v.valid.data_ready)
      ∙ drop-append_le s.read_offset _ _ offset_inside

  pub contents-kept : s.ready_slots < s.slot_count → contents s memory' ≡ contents s memory
  contents-kept more = ap (drop s.read_offset) (
      run_kept s.slot_count s.slot_size v.valid.few_slots s.slots memory memory' s.write_slot
        v.valid.write_in changed s.read_slot s.ready_slots v.valid.read_in
        (omega (arith, v.valid.round, v.valid.write_in, v.valid.read_in)) v.valid.data_ready)

  pub slot_length :
      (n : ℕ) → n ≤ s.slot_size → length (take n (drop (s.write_slot * s.slot_size) memory')) ≡ n
  slot_length n le = omega (
    arith,
    length-take n (drop (s.write_slot * s.slot_size) memory'),
    length-drop (s.write_slot * s.slot_size) memory',
    changed.0,
    v.valid.buffer_room,
    slot_end s.write_slot s.slot_count s.slot_size v.valid.write_in,
  )

-- Nothing is received on a full ring.
pub full_refused :
    (peer : Peer) (fast : FastRead) (p : Port)
    → p.stream.slot_count ≤ p.stream.ready_slots
    → recv_slot peer fast p ≡ (p, neg 1)
unfolding recv_slot can_receive free_count
full_refused peer fast p full =
    if_elim (λ r. r ≡ (p, neg 1)) (p.stream.stream_id == 0 || not (can_receive p.stream)) _ _
      (λ _. refl) (λ e. absurd (ground (arith, e, full)))

module _ (s : Stream) (v : IsLive s) (more : s.ready_slots < s.slot_count) (memory : List ℕ)
    (room : s.buffer_size ≤ length memory) where
  grows :
      (p' : Port) (ret : ℤ)
      → Changes
          (s.write_slot * s.slot_size)
          (s.write_slot * s.slot_size + s.slot_size)
          memory
          p'.memory
      → Receives s (p'.stream, ret)
      → (bytes : List ℕ) × (contents p'.stream p'.memory ≡ contents s memory ++ bytes)
        × (((bytes ≡ []) × ((ret ≡ pos 0) ⊎ (is_neg ret ≡ true))) ⊎ (ret ≡ pos (length bytes)))
        × (length p'.memory ≡ length memory)
        × (p'.stream.buffer_size ≡ s.buffer_size)
  grows p' ret changed (live, inl (o, q, r, (state, code, shape))) = (
    [],
    ap (λ t. contents t p'.memory) shape
        ∙ contents-kept s v memory p'.memory room changed more
        ∙ sym (append-nil (contents s memory)),
    inl (refl, r),
    changed.0,
    ap (λ t. t.buffer_size) shape,
  )
  grows p' ret changed (live, inr (n, e, hn, hs, o, q, m, shape)) = (
    take n (drop (s.write_slot * s.slot_size) p'.memory),
    ap (λ t. contents t p'.memory) shape
        ∙ contents-committed s v memory p'.memory room changed s.rx_offset n more,
    inr (e ∙ ap pos (sym (slot_length s v memory p'.memory room changed n hs))),
    changed.0,
    ap (λ t. t.buffer_size) shape,
  )

-- On a valid ring with a 32-bit offset and a buffer of its declared size, for every other end and
-- every fast read that writes only where it is told to, receiving a slot keeps the bytes that are
-- pending and puts behind them as many as a positive result counts, and none where the result is 0
-- or negative; the sizes of the buffer stay.
pub recv_slot-Grows :
    (peer : Peer) (fast : FastRead) (p : Port)
    → Confined fast
    → IsLive p.stream
    → p.stream.buffer_size ≤ length p.memory
    → Grows p (recv_slot peer fast p)
recv_slot-Grows peer fast p law v room = elim (dec_lt p.stream.ready_slots p.stream.slot_count) [
  | yes more ↦
      grows p.stream v more p.memory room (recv_slot peer fast p).0 (recv_slot peer fast p).1
        (recv_slot-Changes peer fast p law v room) (recv_slot-Receives peer fast p v)
  | no full ↦
      subst (Grows p) (sym (full_refused peer fast p (omega arith)))
        ([], sym (append-nil (contents p.stream p.memory)), inl (refl, inr refl), refl, refl)
]
