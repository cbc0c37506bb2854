-- ===== src/StreamClient/Receive.antt =====
-- Receiving a slot: the ring stays valid, and its queue grows by what arrives.
use chis_link.Common.{
  ℕ, ◌+◌, ◌-◌, ◌%◌, ◌≤◌, ◌<◌, ◌≡◌, ◌⊎◌, inl, inr, refl, sym, ap, ◌∙◌, arith, List, [], ◌∷◌, ◌++◌,
  true, not, ◌||◌, ltb, ◌==◌, if◌then◌else◌, if_elim, Option, none, some, IsU32, u32, ℤ, pos, neg,
  is_neg,
}
use chis_link.Proto.{Header}
use chis_link.Proto.Codes.{stream_recv}
use chis_link.Client.{Peer, Client}
use chis_link.Stream.{Stream, State, can_receive}
use chis_link.Stream
use chis_link.Stream.Fifo.{Fifo}
use chis_link.Stream.Pending.{IsValid, pending, length-pending}
use chis_link.Stream.{producer_acquire, producer_commit, producer_commit_at, free_count}
use chis_link.Stream.Bounds.{acquire_value}
use chis_link.Stream.Refine.Commit.{committed, commit_value, commit-Refines}
use mathlib.Core.Path.{subst}
use chis_link.Stream.Fifo
use chis_link.StreamClient.Answers.{IsAnswer, command-IsAnswer}
use chis_link.StreamClient.{
  Target, Received, Port, FastRead, fail_stream, bad_packet_error, read_target, command,
  recv_request, take_payload, recv_payload, commit_received, recv_slot, memory_target,
}

-- A valid ring whose offset fits its field.
pub record IsLive (s : Stream) : Type 0 where
  pub valid : IsValid s
  pub offset_fits : IsU32 s.rx_offset

-- The ring does not rest on these fields.
pub noted-IsValid :
    {s : Stream} (id low high rx tx : ℕ) (state : State) (code : ℤ)
    → IsValid s
    → IsValid (record s {
      stream_id = id;
      remote_size_low = low;
      remote_size_high = high;
      rx_offset = rx;
      tx_offset = tx;
      state = state;
      last_error = code;
    })
noted-IsValid id low high rx tx state code v = record {
  buffer_set = v.buffer_set;
  slot_room = v.slot_room;
  some_slots = v.some_slots;
  few_slots = v.few_slots;
  some_size = v.some_size;
  size_fits = v.size_fits;
  buffer_room = v.buffer_room;
  read_in = v.read_in;
  write_in = v.write_in;
  ready_in = v.ready_in;
  round = v.round;
  data_ready = v.data_ready;
  offset_in = v.offset_in;
  offset_idle = v.offset_idle;
}

pub note-IsLive :
    {s : Stream} (state : State) (code : ℤ)
    → IsLive s
    → IsLive (record s { state = state; last_error = code })
note-IsLive {s} state code v = record {
  valid =
      noted-IsValid s.stream_id s.remote_size_low s.remote_size_high s.rx_offset s.tx_offset state
        code v.valid;
  offset_fits = v.offset_fits;
}

-- A receiving call fails and changes only the state and the error of the stream, or it brings at most
-- `capacity` bytes and leaves the stream as it was.
abbrev pub Brings : {X : Type 0} → Stream → ℕ → Received X → Type 0
Brings s capacity r =
    ((is_neg r.result ≡ true)
      × ((state : State) × (code : ℤ) × (r.stream ≡ record s { state = state; last_error = code })))
    ⊎ ((r.result ≡ pos 0) × (r.stream ≡ s) × (r.out_length ≤ capacity))

take_payload-Brings :
    {X : Type 0} (peer : Peer) (s : Stream) (target : Target X) (x : X) (capacity : ℕ)
    (a : Client × ℤ × Option Header)
    → IsAnswer a
    → Brings s capacity (take_payload peer s target x capacity a)
unfolding take_payload
take_payload-Brings peer s target x capacity (c, ret, none) b = inl (b, (Stream.error, ret, refl))
take_payload-Brings peer s target x capacity (c, ret, some h) b =
    let t =
      (if h.length == 0 then (c, x, pos 0) else read_target peer target target.fast h.length x c) in
    if_elim (Brings s capacity) (is_neg ret) _ _ (λ e. inl (e, (Stream.error, ret, refl)))
      (λ _.
        if_elim (Brings s capacity) (ltb capacity h.length) _ _
          (λ _. inl (refl, (s.state, bad_packet_error, refl)))
          (λ f.
            if_elim (Brings s capacity) (is_neg t.2) _ _ (λ e. inl (e, (Stream.error, t.2, refl)))
              (λ _. inr (refl, refl, ground (arith, f)))))

pub recv_payload-Brings :
    {X : Type 0} (peer : Peer) (c : Client) (s : Stream) (target : Target X) (x : X) (capacity : ℕ)
    → Brings s capacity (recv_payload peer c s target x capacity)
unfolding recv_payload
recv_payload-Brings peer c s target x capacity =
    if_elim (Brings s capacity) (s.stream_id == 0 || capacity == 0 || ltb s.slot_size capacity) _ _
      (λ _. inl (refl, (s.state, s.last_error, refl)))
      (λ _.
        take_payload-Brings peer s target x capacity
          (command peer c stream_recv (recv_request s capacity))
          (command-IsAnswer peer c stream_recv (recv_request s capacity)))

-- A ring keeps its queue, as only its state and error change; or a slot is committed, and the queue grows at
-- the end by the `n` bytes that the result counts.
abbrev pub Receives : Stream → Stream × ℤ → Type 0
Receives s (s', ret) =
    IsLive s'
    × (((s'.rx_offset ≡ s.rx_offset)
          × (pending s' ≡ pending s)
          × ((ret ≡ pos 0) ⊎ (is_neg ret ≡ true))
          × ((state : State) × (code : ℤ) × (s' ≡ record s { state = state; last_error = code })))
        ⊎ ((n : ℕ) × (ret ≡ pos n)
            × (0 < n)
            × (n ≤ s.slot_size)
            × (s'.rx_offset ≡ u32 (s.rx_offset + n))
            × (pending s' ≡ pending s ++ (record { offset = s.rx_offset; count = n } ∷ []))
            × (s.ready_slots < s.slot_count)
            × (s' ≡ committed s s.rx_offset n)))

-- A call that changes the state and the error of a stream only.
pub noted-Receives :
    (s t : Stream) (state : State) (code ret : ℤ)
    → IsLive s
    → t ≡ record s { state = state; last_error = code }
    → (ret ≡ pos 0) ⊎ (is_neg ret ≡ true)
    → Receives s (t, ret)
noted-Receives s t state code ret v e n =
    subst (λ k. Receives s (k, ret)) (sym e)
      (note-IsLive state code v, inl (refl, refl, n, (state, code, refl)))

commit_offset :
    (s : Stream) (offset n : ℕ)
    → (producer_commit_at s offset n).1 ≡ pos 0
    → (producer_commit_at s offset n).0.rx_offset ≡ u32 (offset + n)
unfolding producer_commit_at
commit_offset s offset n e = ground arith

module _ (s : Stream) (n : ℕ) (v : IsLive s) (more : s.ready_slots < s.slot_count) (hn : 0 < n)
    (hs : n ≤ s.slot_size) where
  commit_queue :
      ◌≡◌ {A = Fifo × ℤ}
        (pending (producer_commit s n).0, (producer_commit s n).1)
        (pending s ++ (record { offset = s.rx_offset; count = n } ∷ []), pos 0)
  unfolding producer_commit
  commit_queue =
      (commit-Refines s.rx_offset n v.valid v.offset_fits).1
      ∙ Fifo.commit_room s.slot_count s.slot_size (pending s)
          (record { offset = s.rx_offset; count = n }) (omega (arith, length-pending v.valid)) hn hs

  commit_result : (producer_commit s n).1 ≡ pos 0
  commit_result = ap (λ r. r.1) commit_queue

  commit_shape : (producer_commit s n).0 ≡ committed s s.rx_offset n
  unfolding producer_commit
  commit_shape = ap (λ (r : Stream × ℤ). r.0) whole
    where
      whole : producer_commit_at s s.rx_offset n ≡ (committed s s.rx_offset n, pos 0)
      whole = commit_value v.valid s.rx_offset n ∙ ground arith

  commit_Receives : Receives s ((producer_commit s n).0, pos n)
  unfolding producer_commit
  commit_Receives =
      let e = commit_offset s s.rx_offset n commit_result in
      (
        record {
          valid = (commit-Refines s.rx_offset n v.valid v.offset_fits).0;
          offset_fits = rw e (ground arith);
        },
        inr (n, refl, hn, hs, e, ap (λ r. r.0) commit_queue, more, commit_shape),
      )

  commit_fits : n % 65536 ≡ n
  commit_fits = omega (arith, v.valid.size_fits)

-- The commit of what was received.
commit_received-Receives :
    (s : Stream) (r : Received (List ℕ))
    → IsLive s
    → s.ready_slots < s.slot_count
    → Brings s s.slot_size r
    → Receives s ((commit_received r).0.stream, (commit_received r).1)
unfolding commit_received
commit_received-Receives s r v more (inl (e, (state, code, q))) =
    if_elim (λ (t : Port × ℤ). Receives s (t.0.stream, t.1)) (is_neg r.result) _ _
      (λ _. noted-Receives s r.stream state code r.result v q (inr e))
      (λ f. absurd (ground (arith, e, f)))
commit_received-Receives s r v more (inr (e, q, le)) =
    subst
      (λ (t : Stream). Receives s (
        (commit_received (record r { stream = t })).0.stream,
        (commit_received (record r { stream = t })).1,
      ))
      (sym q)
      (if_elim (λ (t : Port × ℤ). Receives s (t.0.stream, t.1)) (is_neg r.result) _ _
        (λ f. absurd (ground (arith, e, f)))
        (λ _.
          if_elim (λ (t : Port × ℤ). Receives s (t.0.stream, t.1)) (r.out_length == 0) _ _
            (λ _. noted-Receives s s s.state s.last_error (pos 0) v refl (inl refl))
            (λ f. accepted (ground (arith, f)))))
  where
    -- The end of the function, on a count of bytes.
    ending : ℕ → Port × ℤ
    ending k =
        let (t, code) = producer_commit s k in
        if is_neg code
        then (record { client = r.client; stream = fail_stream t code; memory = r.dst }, code)
        else (record { client = r.client; stream = t; memory = r.dst }, pos r.out_length)

    accepted :
        0 < r.out_length
        → Receives s ((ending (r.out_length % 65536)).0.stream, (ending (r.out_length % 65536)).1)
    accepted hn =
        subst (λ (k : ℕ). Receives s ((ending k).0.stream, (ending k).1))
          (sym (commit_fits s r.out_length v more hn le))
          (if_elim (λ (t : Port × ℤ). Receives s (t.0.stream, t.1))
            (is_neg (producer_commit s r.out_length).1) _ _
            (λ f. absurd (ground (arith, commit_result s r.out_length v more hn le, f)))
            (λ _. commit_Receives s r.out_length v more hn le))

pub room_left : (s : Stream) → can_receive s ≡ true → s.ready_slots < s.slot_count
unfolding can_receive free_count
room_left s e = ground arith

-- For every other end and fast read, receiving a slot on a valid ring whose offset has 32 bits
-- keeps it so; either the queue of pending pieces and the offset stay and the result is 0 or
-- negative, or the result is a number of bytes, at least one, and the queue has one more piece of
-- that many bytes at the offset, which grows by them.
pub recv_slot-Receives :
    (peer : Peer) (fast : FastRead) (p : Port)
    → IsLive p.stream
    → Receives p.stream ((recv_slot peer fast p).0.stream, (recv_slot peer fast p).1)
unfolding recv_slot
recv_slot-Receives peer fast p v =
    let (span, ret) = producer_acquire p.stream in
    let target = memory_target fast (span.data_at - p.stream.buffer) in
    let filled = recv_payload peer p.client p.stream target p.memory span.capacity in
    let R = λ (t : Port × ℤ). Receives p.stream (t.0.stream, t.1) in
    let same = λ (code : ℤ) (n : is_neg code ≡ true).
      noted-Receives p.stream p.stream p.stream.state p.stream.last_error code v refl (inr n) in
    if_elim R (p.stream.stream_id == 0 || not (can_receive p.stream)) _ _ (λ _. same (neg 1) refl)
      (λ e.
        if_elim R (is_neg ret) (record p { stream = record p.stream { last_error = ret } }, ret) _
          (λ f.
            noted-Receives p.stream (record p.stream { last_error = ret }) p.stream.state ret ret v
              refl (inr f))
          (λ _.
            if_elim R (span.data_at == 0 || span.capacity == 0) _ _ (λ _. same (neg 2) refl)
              (λ _.
                let more : p.stream.ready_slots < p.stream.slot_count =
                  room_left p.stream (ground (arith, e)) in
                commit_received-Receives p.stream filled v more (
                  subst (λ k. Brings p.stream k filled)
                    (ap (λ t. t.0.capacity) (acquire_value v.valid more))
                    (recv_payload-Brings peer p.client p.stream target p.memory span.capacity)))))
