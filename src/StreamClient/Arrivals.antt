-- ===== src/StreamClient/Arrivals.antt =====
-- The bytes that a read finds in the ring beyond those that were pending: the payloads of the other end's answers.
use chis_link.Common.{
  ℕ, ◌+◌, ◌*◌, ◌≤◌, ◌<◌, ◌≡◌, ◌⊎◌, inl, inr, refl, sym, ap, ◌∙◌, arith, List, [], ◌∷◌, ◌++◌,
  append-nil, take, drop, length, Changes, ◌==◌, if_elim, Option, none, some, ℤ, pos, negsuc,
  is_neg, true, false,
}
use mathlib.Core.Path.{subst}
use native.Mathlib.Decide.{dec_lt}
use chis_link.Proto.{Header}
use chis_link.Proto.Codes.{stream_recv}
use chis_link.Client.{Peer, Client}
use chis_link.Stream.{Stream, consumer_peek}
use chis_link.StreamClient.{
  FastRead, Port, Found, found, ended, command, le32, request, recv_request, recv_slot, find_again,
  find_view, is_empty_error,
}
use chis_link.StreamClient.Receive.{IsLive, Receives, recv_slot-Receives}
use chis_link.StreamClient.Contents.{contents}
use chis_link.StreamClient.Filling.{recv_slot-Changes}
use chis_link.StreamClient.Growing.{contents-committed, contents-kept, full_refused}
use chis_link.StreamClient.Arriving.{payload, behind}
use chis_link.StreamClient.Delivery.{Delivers, Delivers-Confined}
use chis_link.StreamClient.Inflow.{Answered, recv_slot-Tells}

-- The bytes that a client takes off the link by requests for slots of a stream, one after the other; the
-- requests carry its number `id` and its slot's `size`. Each is answered with a header, and brings the payload
-- of the length that the header gives, from the words that the other end has next.
pub data Arrives (peer : Peer) (id size : ℕ) : Client → List ℕ → Type 0 where
  nothing : {c : Client} → Arrives peer id size c []
  slot :
      {c c1 : Client} {rest : List ℕ} (ret : ℤ) (h : Header)
      → command peer c stream_recv (request (le32 id ++ le32 size) 8 ∷ []) ≡ (c1, ret, some h)
      → Arrives peer id size (behind c1 h.length) rest
      → Arrives peer id size c (payload peer c1.sent h.length ++ rest)

-- What arrives on a stream with its number and slot size.
abbrev pub Comes : Peer → Stream → Client → List ℕ → Type 0
Comes peer s c bytes = Arrives peer s.stream_id s.slot_size c bytes

-- What arrives after the reception of `bytes`.
abbrev pub Goes : Peer → Stream → Client → Client → List ℕ → Type 0
Goes peer s c c' bytes = (rest : List ℕ) → Comes peer s c' rest → Comes peer s c (bytes ++ rest)

Goes-Comes :
    (peer : Peer) (s : Stream) (c c' : Client) (bytes : List ℕ)
    → Goes peer s c c' bytes
    → Comes peer s c bytes
Goes-Comes peer s c c' bytes go = subst (Comes peer s c) (append-nil bytes) (go [] nothing)

Answered-Goes :
    (peer : Peer) (c c' : Client) (s : Stream) (a : Client × ℤ × Option Header) (at n : ℕ)
    (memory : List ℕ)
    → command peer c stream_recv (recv_request s s.slot_size) ≡ a
    → Answered peer a at n c' memory
    → Goes peer s c c' (take n (drop at memory))
Answered-Goes peer c c' s (c1, ret, none) at n memory e w = absurd w
Answered-Goes peer c c' s (c1, ret, some h) at n memory e (same, shown, next) =
    λ (rest : List ℕ) (later : Comes peer s c' rest).
      subst (λ bytes. Comes peer s c (bytes ++ rest)) (ap (payload peer c1.sent) same ∙ sym shown)
        (slot ret h e (subst (λ k. Comes peer s k rest) (next ∙ ap (behind c1) (sym same)) later))

-- A port whose pending bytes are followed by others.
abbrev Grown : Port → Port → List ℕ → Type 0
Grown p p' bytes =
    (contents p'.stream p'.memory ≡ contents p.stream p.memory ++ bytes)
    × (length p'.memory ≡ length p.memory)
    × (p'.stream.buffer_size ≡ p.stream.buffer_size)
    × (p'.stream.stream_id ≡ p.stream.stream_id)
    × (p'.stream.slot_size ≡ p.stream.slot_size)

Grown-none : (p : Port) → Grown p p []
Grown-none p = (sym (append-nil (contents p.stream p.memory)), refl, refl, refl, refl)

-- Nothing was received, or a payload.
abbrev Got : Peer → Stream → Client → Client → ℤ → List ℕ → Type 0
Got peer s c c' ret bytes =
    ((bytes ≡ []) × ((ret ≡ pos 0) ⊎ (is_neg ret ≡ true))) ⊎ Goes peer s c c' bytes

abbrev Slotted : Peer → Port → Port × ℤ → Type 0
Slotted peer p (p', ret) =
    (bytes : List ℕ) × Grown p p' bytes × Got peer p.stream p.client p'.client ret bytes

grows_by :
    (peer : Peer) (p p' : Port) (ret : ℤ)
    → IsLive p.stream
    → p.stream.ready_slots < p.stream.slot_count
    → p.stream.buffer_size ≤ length p.memory
    → Changes
        (p.stream.write_slot * p.stream.slot_size)
        (p.stream.write_slot * p.stream.slot_size + p.stream.slot_size)
        p.memory
        p'.memory
    → Receives p.stream (p'.stream, ret)
    → ((n : ℕ)
        → 0 < n
        → ret ≡ pos n
        → Goes peer p.stream p.client p'.client
            (take n (drop (p.stream.write_slot * p.stream.slot_size) p'.memory)))
    → Slotted peer p (p', ret)
grows_by peer p p' ret v more room changed (live, inl (o, q, r, (state, code, shape))) tells = (
  [],
  (
    ap (λ t. contents t p'.memory) shape
        ∙ contents-kept p.stream v p.memory p'.memory room changed more
        ∙ sym (append-nil (contents p.stream p.memory)),
    changed.0,
    ap (λ t. t.buffer_size) shape,
    ap (λ t. t.stream_id) shape,
    ap (λ t. t.slot_size) shape,
  ),
  inl (refl, r),
)
grows_by peer p p' ret v more room changed (live, inr (n, e, hn, hs, o, q, m, shape)) tells = (
  take n (drop (p.stream.write_slot * p.stream.slot_size) p'.memory),
  (
    ap (λ t. contents t p'.memory) shape
        ∙ contents-committed p.stream v p.memory p'.memory room changed p.stream.rx_offset n more,
    changed.0,
    ap (λ t. t.buffer_size) shape,
    ap (λ t. t.stream_id) shape,
    ap (λ t. t.slot_size) shape,
  ),
  inr (tells n hn e),
)

recv_slot-Slotted :
    (peer : Peer) (fast : FastRead) (p : Port)
    → Delivers peer fast
    → IsLive p.stream
    → p.stream.buffer_size ≤ length p.memory
    → Slotted peer p (recv_slot peer fast p)
recv_slot-Slotted peer fast p law v room = elim (dec_lt p.stream.ready_slots p.stream.slot_count) [
  | yes more ↦
      let p' = (recv_slot peer fast p).0 in
      grows_by peer p p' (recv_slot peer fast p).1 v more room
        (recv_slot-Changes peer fast p (Delivers-Confined peer fast law) v room)
        (recv_slot-Receives peer fast p v)
        (λ n hn e.
          Answered-Goes peer p.client p'.client p.stream
            (command peer p.client stream_recv (recv_request p.stream p.stream.slot_size))
            (p.stream.write_slot * p.stream.slot_size) n p'.memory refl
            (recv_slot-Tells peer fast p law v room n hn e))
  | no full ↦
      subst (Slotted peer p) (sym (full_refused peer fast p (omega arith)))
        ([], Grown-none p, inl (refl, inr refl))
]

-- What a search finds: at its end nothing more arrives, behind a view the rest of the read goes on.
abbrev pub Gains : Peer → Port → Found → Type 0
Gains peer p (ended p' ret) =
    (bytes : List ℕ) × Grown p p' bytes × Comes peer p.stream p.client bytes
Gains peer p (found p' view) =
    (bytes : List ℕ) × Grown p p' bytes × Goes peer p.stream p.client p'.client bytes

find_again-Gains :
    (peer : Peer) (p p1 : Port) (bytes : List ℕ)
    → Grown p p1 bytes
    → Goes peer p.stream p.client p1.client bytes
    → Gains peer p (find_again p1)
unfolding find_again
find_again-Gains peer p p1 bytes g go =
    if_elim (Gains peer p) (is_neg (consumer_peek p1.stream).1) _ _
      (λ _. (bytes, g, Goes-Comes peer p.stream p.client p1.client bytes go)) (λ _. (bytes, g, go))

Got-Comes :
    (peer : Peer) (s : Stream) (c c' : Client) (ret : ℤ) (bytes : List ℕ)
    → Got peer s c c' ret bytes
    → Comes peer s c bytes
Got-Comes peer s c c' ret bytes (inl (e, w)) = subst (Comes peer s c) (sym e) nothing
Got-Comes peer s c c' ret bytes (inr go) = Goes-Comes peer s c c' bytes go

pub find_view-Gains :
    (peer : Peer) (fast : FastRead) (p : Port)
    → Delivers peer fast
    → IsLive p.stream
    → p.stream.buffer_size ≤ length p.memory
    → Gains peer p (find_view peer fast p)
unfolding find_view
find_view-Gains peer fast p law v room =
    let p1 = (recv_slot peer fast p).0 in
    let received = (recv_slot peer fast p).1 in
    let (bytes, g, w) = recv_slot-Slotted peer fast p law v room in
    let over = Got-Comes peer p.stream p.client p1.client received bytes w in
    let P = Gains peer p in
    if_elim P (is_empty_error (consumer_peek p.stream).1) _ _
      (λ _.
        if_elim P (is_neg received) _ _ (λ _. (bytes, g, over))
          (λ f.
            if_elim P (elim received [ pos n ↦ n == 0 | negsuc n ↦ false ]) _ _
              (λ _. (bytes, g, over))
              (λ z. elim w [
                | inl (e, none_there) ↦ absurd (ground (arith, f, z, none_there))
                | inr go ↦ find_again-Gains peer p p1 bytes g go
              ])))
      (λ _.
        if_elim P (is_neg (consumer_peek p.stream).1) _ _ (λ _. ([], Grown-none p, nothing))
          (λ _. (
            [],
            Grown-none p,
            λ (rest : List ℕ) (later : Comes peer p.stream p.client rest). later,
          )))
