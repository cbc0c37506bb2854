-- ===== src/StreamClient/Inflow.antt =====
-- Where the bytes of a received slot come from: they are the payload of the other end's answer.
use chis_link.Common.{
  ℕ, ◌+◌, ◌-◌, ◌*◌, ◌%◌, ◌≤◌, ◌<◌, ◌≡◌, ◌⊎◌, inl, inr, refl, ap, ◌∙◌, arith, List, take, drop,
  length, not, ◌||◌, ltb, ◌==◌, if_elim, if◌then◌else◌, Option, none, some, ℤ, pos, is_neg, false,
}
use mathlib.Core.Path.{subst}
use chis_link.Common.Products.{slot_end}
use chis_link.Proto.{Header}
use chis_link.Proto.Codes.{stream_recv}
use chis_link.Client.{Peer, Client}
use chis_link.Stream.{Stream, can_receive, producer_acquire}
use chis_link.Stream
use chis_link.Stream.Bounds.{acquire_value}
use chis_link.StreamClient.{
  Received, Port, FastRead, memory_target, read_target, command, recv_request, take_payload,
  recv_payload, commit_received, recv_slot,
}
use chis_link.StreamClient.Answers.{IsAnswer, command-IsAnswer}
use chis_link.StreamClient.Receive.{IsLive, room_left}
use chis_link.StreamClient.Arriving.{payload, behind}
use chis_link.StreamClient.Delivery.{Delivers, read_target-Brought}

-- The answer has a header, whose payload of `n` bytes is at the place `at` of the memory, and the client is
-- behind it.
abbrev pub Answered : Peer → Client × ℤ × Option Header → ℕ → ℕ → Client → List ℕ → Type 0
Answered peer (c, ret, none) at n c' memory = ⊥
Answered peer (c, ret, some h) at n c' memory =
    (h.length ≡ n) × (take n (drop at memory) ≡ payload peer c.sent n) × (c' ≡ behind c n)

-- A successful reception of a byte at least.
abbrev FromPeer : Peer → Client × ℤ × Option Header → ℕ → Received (List ℕ) → Type 0
FromPeer peer a at r =
    is_neg r.result ≡ false → (r.out_length ≡ 0) ⊎ Answered peer a at r.out_length r.client r.dst

module _ (peer : Peer) (fast : FastRead) (law : Delivers peer fast) (at : ℕ) where
  take_payload-FromPeer :
      (s : Stream) (memory : List ℕ) (capacity : ℕ) (a : Client × ℤ × Option Header)
      → IsAnswer a
      → capacity < 65536
      → at + capacity ≤ length memory
      → FromPeer peer a at (take_payload peer s (memory_target fast at) memory capacity a)
  unfolding take_payload
  take_payload-FromPeer s memory capacity (c, ret, none) b small room =
      λ f. absurd (ground (arith, b, f))
  take_payload-FromPeer s memory capacity (c, ret, some h) b small room =
      let target = memory_target fast at in
      let P = FromPeer peer (c, ret, some h) at in
      if_elim P (is_neg ret) _ _ (λ e f. absurd (ground (arith, e, f)))
        (λ _.
          if_elim P (ltb capacity h.length) _ _ (λ _ f. absurd (ground (arith, f)))
            (λ g.
              let le : h.length ≤ capacity = ground (arith, g) in
              let Q = λ (t : Client × List ℕ × ℤ).
                is_neg t.2 ≡ false
                → (h.length ≡ 0) ⊎ Answered peer (c, ret, some h) at h.length t.0 t.1 in
              let got : Q (
                  if h.length == 0
                  then (c, memory, pos 0)
                  else read_target peer target target.fast h.length memory c) =
                if_elim Q (h.length == 0) (c, memory, pos 0)
                  (read_target peer target target.fast h.length memory c)
                  (λ e _. inl (ground (arith, e)))
                  (λ _ f.
                    let r =
                      read_target-Brought peer at h.length memory c (omega (arith, le))
                        (omega (arith, le)) fast law f in
                    inr (refl, r.0, r.1)) in
              if_elim P _ _ _ (λ e f. absurd (ground (arith, e, f))) (λ e _. got e)))

  recv_payload-FromPeer :
      (c : Client) (s : Stream) (memory : List ℕ) (capacity : ℕ)
      → capacity < 65536
      → at + capacity ≤ length memory
      → FromPeer peer
          (command peer c stream_recv (recv_request s capacity))
          at
          (recv_payload peer c s (memory_target fast at) memory capacity)
  unfolding recv_payload
  recv_payload-FromPeer c s memory capacity small room =
      let a = command peer c stream_recv (recv_request s capacity) in
      if_elim (FromPeer peer a at) (s.stream_id == 0 || capacity == 0 || ltb s.slot_size capacity) _
        _ (λ _ f. absurd (ground (arith, f)))
        (λ _.
          take_payload-FromPeer s memory capacity a
            (command-IsAnswer peer c stream_recv (recv_request s capacity)) small room)

-- A positive result counts the bytes of an answer.
abbrev Tells : Peer → Client × ℤ × Option Header → ℕ → Port × ℤ → Type 0
Tells peer a at (p, ret) = (n : ℕ) → 0 < n → ret ≡ pos n → Answered peer a at n p.client p.memory

commit_received-Tells :
    (peer : Peer) (a : Client × ℤ × Option Header) (at : ℕ) (r : Received (List ℕ))
    → FromPeer peer a at r
    → Tells peer a at (commit_received r)
unfolding commit_received
commit_received-Tells peer a at r from =
    if_elim (Tells peer a at) (is_neg r.result) _ _ (λ e n h q. absurd (ground (arith, e, q)))
      (λ f.
        if_elim (Tells peer a at) (r.out_length == 0) _ _ (λ e n h q. absurd (ground (arith, h, q)))
          (λ z.
            if_elim (Tells peer a at)
              (is_neg (Stream.producer_commit r.stream (r.out_length % 65536)).1) _ _
              (λ e n h q. absurd (ground (arith, e, q))) (λ _. accepted f z)))
  where
    accepted :
        is_neg r.result ≡ false
        → (r.out_length == 0) ≡ false
        → (n : ℕ) → 0 < n
        → pos r.out_length ≡ pos n
        → Answered peer a at n r.client r.dst
    accepted f z n h q =
        let same : r.out_length ≡ n = ground (arith, q) in
        elim (from f) [
          | inl w ↦ absurd (ground (arith, w, z))
          | inr g ↦ subst (λ k. Answered peer a at k r.client r.dst) same g
        ]

-- A received slot holds the payload of the other end's answer to the request.
pub recv_slot-Tells :
    (peer : Peer) (fast : FastRead) (p : Port)
    → Delivers peer fast
    → IsLive p.stream
    → p.stream.buffer_size ≤ length p.memory
    → Tells peer
        (command peer p.client stream_recv (recv_request p.stream p.stream.slot_size))
        (p.stream.write_slot * p.stream.slot_size)
        (recv_slot peer fast p)
unfolding recv_slot
recv_slot-Tells peer fast p law v room =
    let s = p.stream in
    let (span, ret) = producer_acquire s in
    let at = span.data_at - s.buffer in
    let filled = recv_payload peer p.client s (memory_target fast at) p.memory span.capacity in
    let at' = s.write_slot * s.slot_size in
    let ask = λ (k : ℕ). command peer p.client stream_recv (recv_request s k) in
    let P = Tells peer (ask s.slot_size) at' in
    if_elim P (s.stream_id == 0 || not (can_receive s)) _ _ (λ _ n h q. absurd (ground (arith, q)))
      (λ e.
        if_elim P (is_neg ret) _ _ (λ f n h q. absurd (ground (arith, f, q)))
          (λ _.
            if_elim P (span.data_at == 0 || span.capacity == 0) _ _
              (λ _ n h q. absurd (ground (arith, q)))
              (λ _.
                let more : s.ready_slots < s.slot_count = room_left s (ground (arith, e)) in
                let there : at ≡ at' =
                  ap (λ t. t.0.data_at - s.buffer) (acquire_value v.valid more) ∙ omega arith in
                let whole : span.capacity ≡ s.slot_size =
                  ap (λ t. t.0.capacity) (acquire_value v.valid more) in
                let fits : at' + s.slot_size ≤ length p.memory = omega (
                  arith,
                  slot_end s.write_slot s.slot_count s.slot_size v.valid.write_in,
                  v.valid.buffer_room,
                ) in
                subst (λ k. Tells peer (ask s.slot_size) k (commit_received filled)) there
                  (subst (λ k. Tells peer (ask k) at (commit_received filled)) whole
                    (commit_received-Tells peer (ask span.capacity) at filled (
                      recv_payload-FromPeer peer fast law at p.client s p.memory span.capacity
                        (omega (arith, whole, v.valid.size_fits))
                        (omega (arith, there, whole, fits))))))))
