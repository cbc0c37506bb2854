-- ===== src/StreamClient/Drain.antt =====
-- The reading loop on a live ring: it ends, keeps the ring valid, and loses no byte.
use chis_link.Common.{
  ℕ, zero, suc, ◌+◌, ◌-◌, ◌%◌, ◌≤◌, ◌<◌, ◌≡◌, ◌≢◌, ◌⊎◌, inl, inr, refl, sym, ap, arith, List, true,
  false, not, ltb, length, if◌then◌else◌, if_elim, Option, some, IsU32, u32, ℤ, pos, negsuc, is_neg,
  Bool, ◌&&◌, ◌||◌, ◌==◌,
}
use native.Mathlib.Decide.{dec_lt}
use mathlib.Core.Path.{subst}
use chis_link.Client.{Peer}
use chis_link.Stream.{Stream, View, consumer_peek, consumer_release_bytes}
use chis_link.Stream.Pending.{pending, length-pending, head-IsReady}
use chis_link.Stream.Bounds.{peek_value, peek_bounds}
use chis_link.StreamClient.{
  FastRead, Port, Found, found, ended, Drained, is_empty_error, note_error, recv_slot, find_again,
  find_view, taken_bytes, store_read, view_bytes, take_round, drain, kept_dst, is_null,
  read_or_discard,
}
use chis_link.StreamClient.Receive.{IsLive, note-IsLive, recv_slot-Receives}
use chis_link.StreamClient.Balance.{total, total_none, Balanced, received-Balanced, release_shown}

-- What a search leaves: at its end an empty ring at the start, and otherwise the view of a ring with data.
abbrev pub Finds : Stream → Found → Type 0
Finds s (ended p ret) =
    IsLive p.stream
    × Balanced 0 s p.stream
    × (total (pending s) ≡ 0)
    × ((ret ≡ pos 0) ⊎ (is_neg ret ≡ true))
Finds s (found p view) =
    IsLive p.stream
    × Balanced 0 s p.stream
    × (total (pending s) ≤ total (pending p.stream))
    × (0 < p.stream.ready_slots)
    × (view ≡ (consumer_peek p.stream).0)

peek_ready : (s : Stream) → is_neg (consumer_peek s).1 ≡ false → 0 < s.ready_slots
unfolding consumer_peek
peek_ready s e = ground arith

peek_empty : {s : Stream} → IsLive s → is_neg (consumer_peek s).1 ≡ true → total (pending s) ≡ 0
peek_empty {s} v e = elim (dec_lt 0 s.ready_slots) [
  | yes h ↦ absurd (ground (arith, e, ap is_neg (peek_bounds v.valid h).0))
  | no h ↦ total_none (pending s) (omega (arith, length-pending v.valid))
]

find_again-Finds :
    (s : Stream) (p : Port)
    → IsLive p.stream
    → Balanced 0 s p.stream
    → total (pending s) ≡ 0
    → Finds s (find_again p)
unfolding find_again
find_again-Finds s p v b none_left =
    let (view, ret) = consumer_peek p.stream in
    if_elim (Finds s) (is_neg ret) _ _
      (λ e. (note-IsLive p.stream.state ret v, b, none_left, inr e))
      (λ e. (v, b, omega (arith, none_left), peek_ready p.stream e, refl))

pub find_view-Finds :
    (peer : Peer) (fast : FastRead) (p : Port)
    → IsLive p.stream
    → Finds p.stream (find_view peer fast p)
unfolding find_view
find_view-Finds peer fast p v =
    let ret = (consumer_peek p.stream).1 in
    let r = recv_slot-Receives peer fast p v in
    let p1 = (recv_slot peer fast p).0 in
    let received = (recv_slot peer fast p).1 in
    let b = received-Balanced p.stream p1.stream received r in
    if_elim (Finds p.stream) (is_empty_error ret) _ _
      (λ e.
        let empty : total (pending p.stream) ≡ 0 = peek_empty v (ground (arith, e)) in
        if_elim (Finds p.stream) (is_neg received) _ _
          (λ f. (note-IsLive p1.stream.state received r.0, b.0, empty, inr f))
          (λ _.
            if_elim (Finds p.stream) (elim received [ pos n ↦ n == 0 | negsuc n ↦ false ]) _ _
              (λ _. (r.0, b.0, empty, inl refl)) (λ _. find_again-Finds p.stream p1 r.0 b.0 empty)))
      (λ _.
        if_elim (Finds p.stream) (is_neg ret) _ _
          (λ e. (note-IsLive p.stream.state ret v, omega arith, peek_empty v e, inr e))
          (λ e. (v, omega arith, omega arith, peek_ready p.stream e, refl)))

-- How the loop ends on a ring `s`, of which `out` bytes were taken before.
abbrev pub Leaves : ℕ → ℕ → Stream → Drained → Type 0
Leaves length out s d =
    IsLive d.port.stream
    × (out ≤ d.out_length)
    × (d.out_length ≤ length)
    × ((total (pending d.port.stream) + d.out_length + s.rx_offset) % 4294967296
        ≡ (total (pending s) + out + d.port.stream.rx_offset) % 4294967296)
    × ((d.result ≡ pos 0) ⊎ (is_neg d.result ≡ true))
    × ((out + total (pending s) < length) ⊎ ((d.result ≡ pos 0) × (d.out_length ≡ length)))

abbrev pub Returns : ℕ → ℕ → Stream → Option Drained → Type 0
Returns length out s r = (d : Drained) × (r ≡ some d) × Leaves length out s d

-- What is asked for is there.
at_end :
    (length out : ℕ) (p : Port) (dst : Option (List ℕ))
    → IsLive p.stream
    → out ≡ length
    → Returns length out p.stream
        (some (record { port = p; dst = dst; result = pos 0; out_length = out }))
at_end length out p dst v e = (
  record { port = p; dst = dst; result = pos 0; out_length = out },
  refl,
  (v, omega arith, omega arith, refl, inl refl, inr (refl, e)),
)

-- The rounds after one that took `n` bytes.
shift :
    (length out n : ℕ) (s p s1 : Stream) (r : Option Drained)
    → Balanced 0 s p
    → total (pending s) ≤ total (pending p)
    → total (pending s1) + n ≡ total (pending p)
    → s1.rx_offset ≡ p.rx_offset
    → Returns length (out + n) s1 r
    → Returns length out s r
shift length out n s p s1 r b more t o (d, e, (v, lo, hi, m, res, full)) =
    (d, e, (v, omega arith, hi, omega (arith, b, t, o, m), res, either))
  where
    either : (out + total (pending s) < length) ⊎ ((d.result ≡ pos 0) × (d.out_length ≡ length))
    either = elim full [ inl lt ↦ inl (omega (arith, more, t, lt)) | inr q ↦ inr q ]

-- What a round takes of a view: a byte at least, and no more than it shows.
pub taken_lem :
    {s : Stream} (length out : ℕ) (view : View)
    → IsLive s
    → 0 < s.ready_slots
    → view ≡ (consumer_peek s).0
    → out < length
    → (0 < taken_bytes length out view)
      × (taken_bytes length out view ≤ (consumer_peek s).0.length)
      × (taken_bytes length out view ≤ length - out)
      × (taken_bytes length out view % 65536 ≡ taken_bytes length out view)
taken_lem {s} length out view v ready e lt =
    let (ok, some_bytes, above, below) = peek_bounds v.valid ready in
    let shown : view.length ≡ (consumer_peek s).0.length = ap (λ k. k.length) e in
    let small : (consumer_peek s).0.length < 65536 = omega (
      arith,
      ap (λ (t : View × ℤ). t.0.length) (peek_value v.valid ready),
      (head-IsReady v.valid ready).fits,
      v.valid.size_fits,
    ) in
    ground (arith, shown, some_bytes, small)

module _ (length fuel : ℕ) (fits : IsU32 length)
    (goes_on : Option (List ℕ) → ℕ → Port → Option Drained)
    (later : (dst : Option (List ℕ)) (out : ℕ) (p : Port)
      → IsLive p.stream
      → out ≤ length
      → length ≤ out + fuel
      → Returns length out p.stream (goes_on dst out p)) where
  -- The view's bytes are released, and the rounds after that see a ring that lacks them.
  view-Returns :
      (dst : Option (List ℕ)) (out : ℕ) (s : Stream) (p : Port) (view : View)
      → out < length
      → length ≤ out + suc fuel
      → Finds s (found p view)
      → Returns length out s (take_round goes_on dst length out (found p view))
  unfolding take_round
  view-Returns dst out s p view lt le (v, b, more, ready, e) =
      let n = taken_bytes length out view in
      let (hn, shown, left, same) = taken_lem {s = p.stream} length out view v ready e lt in
      let (ok, live, t, o) = release_shown v n ready hn shown in
      let s1 = (consumer_release_bytes p.stream n).0 in
      let dst1 = store_read dst out (view_bytes p view n) in
      let next : u32 (out + n) ≡ out + n = omega (arith, left, fits) in
      subst (λ k. Returns length out s (rest k)) (sym same)
        (if_elim (Returns length out s) (is_neg (consumer_release_bytes p.stream n).1) _ _
          (λ f. absurd (ground (arith, ok, f)))
          (λ _.
            shift length out n s p.stream s1
              (goes_on dst1 (u32 (out + n)) (record p { stream = s1 })) b more t o
              (subst (λ k. Returns length (out + n) s1 (goes_on dst1 k (record p { stream = s1 })))
                (sym next)
                (later dst1 (out + n) (record p { stream = s1 }) live (omega (arith, left))
                  (omega (arith, left, hn))))))
    where
      -- The end of the round, on a count of bytes to release.
      rest : ℕ → Option Drained
      rest k =
          let n = taken_bytes length out view in
          let dst1 = store_read dst out (view_bytes p view n) in
          let (s1, ret) = consumer_release_bytes p.stream k in
          let p1 = record p { stream = s1 } in
          if is_neg ret
          then some
              (record { port = note_error p1 ret; dst = dst1; result = ret; out_length = out })
          else goes_on dst1 (u32 (out + n)) p1

  round-Returns :
      (dst : Option (List ℕ)) (out : ℕ) (s : Stream) (f : Found)
      → out < length
      → length ≤ out + suc fuel
      → Finds s f
      → Returns length out s (take_round goes_on dst length out f)
  unfolding take_round
  round-Returns dst out s (ended p ret) lt le (v, b, none_left, r) = (
    record { port = p; dst = dst; result = ret; out_length = out },
    refl,
    (v, omega arith, omega arith, omega (arith, b), r, inl (omega (arith, none_left))),
  )
  round-Returns dst out s (found p view) lt le f = view-Returns dst out s p view lt le f

pub drain-Returns :
    (fuel : ℕ) (peer : Peer) (fast : FastRead) (length : ℕ)
    → IsU32 length
    → (dst : Option (List ℕ)) (out : ℕ) (p : Port) → IsLive p.stream
    → out ≤ length
    → length ≤ out + fuel
    → Returns length out p.stream (drain fuel peer fast dst length out p)
unfolding drain
drain-Returns zero peer fast length fits dst out p v ho le =
    if_elim (Returns length out p.stream) (ltb out length) _ _ (λ e. absurd (ground (arith, e)))
      (λ _. at_end length out p dst v (omega arith))
drain-Returns (suc fuel) peer fast length fits dst out p v ho le =
    if_elim (Returns length out p.stream) (not (ltb out length)) _ _
      (λ e. at_end length out p dst v (ground (arith, e)))
      (λ e.
        round-Returns length fuel fits (λ dst1 out1 p1. drain fuel peer fast dst1 length out1 p1)
          (λ dst1 out1 p1 v1 ho1 le1.
            drain-Returns fuel peer fast length fits dst1 out1 p1 v1 ho1 le1)
          dst out p.stream (find_view peer fast p) (ground (arith, e)) le
          (find_view-Finds peer fast p v))

-- On an open stream whose ring is valid and whose offset has 32 bits, a read into a buffer or a
-- discard, of a 32-bit length, returns, for every other end of the link and every fast read of the
-- transport: the ring is valid again, at most that many bytes were taken, the result is 0 or
-- negative, no byte of the stream is lost or counted twice (modulo 2 ^ 32, what is pending and
-- what was taken make up what was pending and what the stream's offset grew by), and the result is
-- 0 with all bytes taken unless fewer were pending at the start.
pub read-Returns :
    (peer : Peer) (fast : FastRead) (p : Port) (discarding : Bool) (dst : Option (List ℕ))
    (length : ℕ)
    → IsLive p.stream
    → p.stream.stream_id ≢ 0
    → IsU32 length
    → (discarding ≡ true) ⊎ (is_null dst ≡ false)
    → Returns length 0 p.stream (read_or_discard peer fast p discarding dst length)
unfolding read_or_discard
read-Returns peer fast p discarding dst length v h fits there =
    if_elim (Returns length 0 p.stream)
      (p.stream.stream_id == 0 || (not discarding && (is_null dst && not (length == 0)))) _ _
      (λ e. absurd (ground (arith, e, h, there)))
      (λ _.
        drain-Returns length peer fast length fits (kept_dst discarding dst) 0 p v (omega arith)
          (omega arith))
