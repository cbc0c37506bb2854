-- ===== src/StreamClient/Filling.antt =====
-- What receiving a slot does to the buffer of the ring: its pending bytes stay, and others follow them.
use chis_link.Common.{
  ℕ, zero, suc, ◌+◌, ◌-◌, ◌*◌, ◌/◌, ◌≤◌, ◌<◌, ◌≡◌, refl, sym, ap, ◌∙◌, arith, List, ◌++◌, take,
  drop, length, length-take, Changes, Changes-trans, put-Changes, drop-Changes, not, ◌||◌, ltb, leb,
  ◌==◌, if◌then◌else◌, if_elim, Option, none, some, ℤ, pos, is_neg,
}
use mathlib.Core.Path.{subst}
use chis_link.Common.Products.{slot_end}
use chis_link.Proto.{Header, aligned_length, store_le32}
use chis_link.Proto.Bytes.{store_le32-overwrite, word_bytes}
use chis_link.Proto.Frame.{aligned_length_lem}
use chis_link.Proto.Codes.{stream_recv}
use chis_link.Client.{Peer, Client, xfer32}
use chis_link.Wire.{nop_word}
use chis_link.Stream.{Stream, can_receive, producer_acquire}
use chis_link.Stream.Bounds.{acquire_value}
use chis_link.StreamClient.{
  Target, Received, Port, FastRead, memory_target, read_target_words, after_fast, read_target,
  fast_payload_threshold, command, recv_request, take_payload, recv_payload, commit_received,
  recv_slot,
}
use chis_link.StreamClient.Receive.{IsLive, room_left}

-- The transport's fast read writes where it is told to.
abbrev pub Confined : FastRead → Type 0
Confined none = Unit {0}
Confined (some fast) =
    (at : ℕ) (memory : List ℕ) (n : ℕ) (log : List ℕ)
    → at + n ≤ length memory
    → Changes at (at + n) memory (fast at memory n log).1

widen : (lo hi hi' : ℕ) (xs ys : List ℕ) → Changes lo hi xs ys → hi ≤ hi' → Changes lo hi' xs ys
widen lo hi hi' xs ys c h = (c.0, c.1, drop-Changes lo hi hi' xs ys c h)

module _ (peer : Peer) (fast : FastRead) (at : ℕ) where
  words-Changes :
      (left offset n : ℕ) (memory : List ℕ) (c : Client)
      → offset + 4 * left ≤ n + 3
      → at + n ≤ length memory
      → Changes at
          (at + n)
          memory
          (read_target_words peer left offset n (memory_target fast at) memory c).1
  unfolding read_target_words
  words-Changes zero offset n memory c h room = (refl, refl, refl)
  words-Changes (suc left) offset n memory c h room =
      let word = (xfer32 peer c nop_word).0 in
      let valid = (if ltb 4 (n - offset) then 4 else n - offset) in
      let stored = take (at + offset) memory ++ store_le32 (drop (at + offset) memory) word valid in
      let few : length (take valid (word_bytes word)) ≤ n - offset =
        ground (arith, length-take valid (word_bytes word)) in
      let one : Changes at (at + n) memory stored =
        subst (λ rest. Changes at (at + n) memory (take (at + offset) memory ++ rest))
          (sym (store_le32-overwrite (drop (at + offset) memory) word valid))
          (put-Changes at (at + n) (at + offset) (take valid (word_bytes word)) memory (omega arith)
            (omega (arith, few, h)) room) in
      Changes-trans at (at + n) memory stored _ one (
        words-Changes left (offset + 4) n stored (xfer32 peer c nop_word).1 (omega arith)
          (omega (arith, one.0)))

  after_fast_dst : (c : Client) (r : ℤ × List ℕ × List ℕ) → (after_fast c r).1 ≡ r.1
  unfolding after_fast
  after_fast_dst c (ret, x, log) = ground arith

  -- Words or a fast read.
  read_target-Changes :
      (n : ℕ) (memory : List ℕ) (c : Client)
      → Confined fast
      → n < 65536
      → at + n ≤ length memory
      → Changes at
          (at + n)
          memory
          (read_target peer (memory_target fast at) (memory_target fast at).fast n memory c).1
  unfolding read_target
  read_target-Changes n memory c law small room = by_way fast law
    where
      target : Target (List ℕ)
      target = memory_target fast at

      in_words :
          Changes at
            (at + n)
            memory
            (read_target_words peer (aligned_length n / 4) 0 n target memory c).1
      in_words =
          words-Changes (aligned_length n / 4) 0 n memory c
            (omega (arith, aligned_length_lem n (omega arith))) room

      by_way :
          (f : FastRead)
          → Confined f
          → Changes at
              (at + n)
              memory
              (read_target peer target (memory_target f at).fast n memory c).1
      by_way none l = in_words
      by_way (some f) l =
          if_elim (λ (r : Client × List ℕ × ℤ). Changes at (at + n) memory r.1)
            (leb fast_payload_threshold n) _ _
            (λ _.
              subst (Changes at (at + n) memory) (sym (after_fast_dst c (f at memory n c.sent)))
                (l at memory n c.sent room))
            (λ _. in_words)

  take_payload-Changes :
      (s : Stream) (memory : List ℕ) (capacity : ℕ) (a : Client × ℤ × Option Header)
      → Confined fast
      → capacity < 65536
      → at + capacity ≤ length memory
      → Changes at
          (at + capacity)
          memory
          (take_payload peer s (memory_target fast at) memory capacity a).dst
  unfolding take_payload
  take_payload-Changes s memory capacity (c, ret, none) law small room = (refl, refl, refl)
  take_payload-Changes s memory capacity (c, ret, some h) law small room =
      let target = memory_target fast at in
      let t =
        (if h.length == 0
          then (c, memory, pos 0)
          else read_target peer target target.fast h.length memory c) in
      let P = λ (r : Received (List ℕ)). Changes at (at + capacity) memory r.dst in
      if_elim P (is_neg ret) _ _ (λ _. (refl, refl, refl))
        (λ _.
          if_elim P (ltb capacity h.length) _ _ (λ _. (refl, refl, refl))
            (λ f.
              let le : h.length ≤ capacity = ground (arith, f) in
              let changed : Changes at (at + capacity) memory t.1 =
                if_elim (λ (r : Client × List ℕ × ℤ). Changes at (at + capacity) memory r.1)
                  (h.length == 0) (c, memory, pos 0)
                  (read_target peer target target.fast h.length memory c) (λ _. (refl, refl, refl))
                  (λ _.
                    widen at (at + h.length) (at + capacity) memory
                      (read_target peer target target.fast h.length memory c).1
                      (read_target-Changes h.length memory c law (omega (arith, le))
                        (omega (arith, le)))
                      (omega (arith, le))) in
              if_elim P (is_neg t.2) _ _ (λ _. changed) (λ _. changed)))

  recv_payload-Changes :
      (c : Client) (s : Stream) (memory : List ℕ) (capacity : ℕ)
      → Confined fast
      → capacity < 65536
      → at + capacity ≤ length memory
      → Changes at
          (at + capacity)
          memory
          (recv_payload peer c s (memory_target fast at) memory capacity).dst
  unfolding recv_payload
  recv_payload-Changes c s memory capacity law small room =
      if_elim (λ (r : Received (List ℕ)). Changes at (at + capacity) memory r.dst)
        (s.stream_id == 0 || capacity == 0 || ltb s.slot_size capacity) _ _
        (λ _. (refl, refl, refl))
        (λ _.
          take_payload-Changes s memory capacity
            (command peer c stream_recv (recv_request s capacity)) law small room)

commit_received_memory : (r : Received (List ℕ)) → (commit_received r).0.memory ≡ r.dst
unfolding commit_received
commit_received_memory r = ground arith

-- Only the slot that is written next changes.
pub recv_slot-Changes :
    (peer : Peer) (fast : FastRead) (p : Port)
    → Confined fast
    → IsLive p.stream
    → p.stream.buffer_size ≤ length p.memory
    → Changes
        (p.stream.write_slot * p.stream.slot_size)
        (p.stream.write_slot * p.stream.slot_size + p.stream.slot_size)
        p.memory
        (recv_slot peer fast p).0.memory
unfolding recv_slot
recv_slot-Changes peer fast p law v room =
    let s = p.stream in
    let (span, ret) = producer_acquire s in
    let at = span.data_at - s.buffer in
    let filled = recv_payload peer p.client s (memory_target fast at) p.memory span.capacity in
    let at' = s.write_slot * s.slot_size in
    let P = λ (t : Port × ℤ). Changes at' (at' + s.slot_size) p.memory t.0.memory in
    if_elim P (s.stream_id == 0 || not (can_receive s)) _ _ (λ _. (refl, refl, refl))
      (λ e.
        if_elim P (is_neg ret) _ _ (λ _. (refl, refl, refl))
          (λ _.
            if_elim P (span.data_at == 0 || span.capacity == 0) _ _ (λ _. (refl, refl, refl))
              (λ _.
                let more : s.ready_slots < s.slot_count = room_left s (ground (arith, e)) in
                let there : at ≡ at' =
                  ap (λ t. t.0.data_at - s.buffer) (acquire_value v.valid more) ∙ omega arith in
                let whole : span.capacity ≡ s.slot_size =
                  ap (λ t. t.0.capacity) (acquire_value v.valid more) in
                let fits : at' + s.slot_size ≤ length p.memory = omega (
                  arith,
                  slot_end s.write_slot s.slot_count s.slot_size v.valid.write_in,
                  v.valid.buffer_room,
                ) in
                let c =
                  recv_payload-Changes peer fast at p.client s p.memory span.capacity law
                    (omega (arith, whole, v.valid.size_fits)) (omega (arith, there, whole, fits)) in
                subst (λ m. Changes at' (at' + s.slot_size) p.memory m)
                  (sym (commit_received_memory filled))
                  (subst (λ k. Changes k (k + s.slot_size) p.memory filled.dst) there
                    (subst (λ k. Changes at (at + k) p.memory filled.dst) whole c)))))
