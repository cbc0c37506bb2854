-- ===== src/StreamClient/Reading.antt =====
-- Which bytes `cl_stream_read` puts into the caller's buffer.
use chis_link.Common.{
  ℕ, zero, suc, ◌+◌, ◌-◌, ◌*◌, ◌≤◌, ◌<◌, ◌≡◌, ◌≢◌, refl, sym, ap, ◌∙◌, arith, List, [], ◌++◌,
  append-nil, append_assoc, take, drop, length, length-append, take-append-drop, put-Changes,
  drop-Changes, take-put, false, not, ◌||◌, ◌&&◌, ltb, ◌==◌, if_elim, if◌then◌else◌, Option, some,
  IsU32, u32, ℤ, pos, is_neg,
}
use mathlib.Core.Path.{ap₂, subst}
use chis_link.Client.{Peer}
use chis_link.Stream.{View, read_head, consumer_peek, consumer_release_bytes}
use chis_link.Stream.Bounds.{peek_value}
use chis_link.StreamClient.{
  FastRead, Port, Found, found, ended, Drained, note_error, put_bytes, find_view, taken_bytes,
  view_bytes, take_round, drain, read, read_or_discard, is_null,
}
use chis_link.StreamClient.Receive.{IsLive}
use chis_link.StreamClient.Balance.{release_shown, release_size, release_id, release_slot_size}
use chis_link.StreamClient.Drain.{Finds, find_view-Finds, taken_lem}
use chis_link.StreamClient.Contents.{contents, contents-view, view_length, release_bytes-contents}
use chis_link.StreamClient.Delivery.{Delivers}
use chis_link.StreamClient.Arrivals.{Arrives, Comes, nothing, Goes, Gains, find_view-Gains}

-- The bytes that a view shows are the first of those pending, and a release of them leaves the others.
module _ (p : Port) (v : IsLive p.stream) (room : p.stream.buffer_size ≤ length p.memory)
    (ready : 0 < p.stream.ready_slots) (view : View) (shown : view ≡ (consumer_peek p.stream).0)
    (n : ℕ) (hn : 0 < n) (h : n ≤ (consumer_peek p.stream).0.length) where
  left_there : n ≤ (read_head p.stream).length - p.stream.read_offset
  left_there = omega (arith, ap (λ (t : View × ℤ). t.0.length) (peek_value v.valid ready))

  view_place :
      view.data_at - p.stream.buffer
      ≡ p.stream.read_slot * p.stream.slot_size + p.stream.read_offset
  view_place =
      ap (λ (t : View). t.data_at - p.stream.buffer) shown
      ∙ ap (λ (t : View × ℤ). t.0.data_at - p.stream.buffer) (peek_value v.valid ready)
      ∙ omega arith

  view_bytes_length : length (view_bytes p view n) ≡ n
  view_bytes_length =
      ap (λ k. length (take n (drop k p.memory))) view_place
      ∙ view_length v.valid p.memory room ready n left_there

  view_bytes_split :
      contents p.stream p.memory
      ≡ view_bytes p view n ++ contents (consumer_release_bytes p.stream n).0 p.memory
  view_bytes_split =
      sym (take-append-drop n (contents p.stream p.memory))
      ∙ ap₂ ◌++◌
          (sym (
            ap (λ k. take n (drop k p.memory)) view_place
            ∙ contents-view v.valid p.memory room ready n left_there))
          (sym (release_bytes-contents v.valid p.memory room ready n hn left_there))

-- What a loop leaves that starts with `out` bytes in the buffer: `taken` follows them, the bytes behind stay,
-- and what was pending, followed by what arrived, is what was taken, followed by what is pending.
abbrev pub Gives : Peer → ℕ → List ℕ → Port → Drained → Type 0
Gives peer out buffer p d =
    (buffer' taken arrived : List ℕ) × Comes peer p.stream p.client arrived
    × (d.dst ≡ some buffer')
    × (d.out_length ≡ out + length taken)
    × (contents p.stream p.memory ++ arrived ≡ taken ++ contents d.port.stream d.port.memory)
    × (take d.out_length buffer' ≡ take out buffer ++ taken)
    × (drop d.out_length buffer' ≡ drop d.out_length buffer)

-- The bytes of one round, and those of the rounds after it.
combine :
    (peer : Peer) (out : ℕ) (buffer bytes arrived : List ℕ) (p p1 : Port) (d : Drained)
    → Goes peer p.stream p.client p1.client arrived
    → p1.stream.stream_id ≡ p.stream.stream_id
    → p1.stream.slot_size ≡ p.stream.slot_size
    → contents p.stream p.memory ++ arrived ≡ bytes ++ contents p1.stream p1.memory
    → out + length bytes ≤ length buffer
    → Gives peer (out + length bytes) (put_bytes out bytes buffer) p1 d
    → Gives peer out buffer p d
combine peer out buffer bytes arrived p p1 d go ei es e room
      (buffer', taken, later, more, e1, e2, e3, e4, e5) =
    (
      buffer',
      bytes ++ taken,
      arrived ++ later,
      go later (
          subst (λ z. Arrives peer p.stream.stream_id z p1.client later) es
            (subst (λ i. Arrives peer i p1.stream.slot_size p1.client later) ei more)),
      e1,
      omega (arith, e2, length-append bytes taken),
      sym (append_assoc (contents p.stream p.memory) arrived later)
          ∙ ap (λ t. t ++ later) e
          ∙ append_assoc bytes (contents p1.stream p1.memory) later
          ∙ ap (λ t. bytes ++ t) e3
          ∙ sym (append_assoc bytes taken (contents d.port.stream d.port.memory)),
      e4
          ∙ ap (λ t. t ++ taken) (take-put out bytes buffer room)
          ∙ append_assoc (take out buffer) bytes taken,
      e5
          ∙ drop-Changes out (out + length bytes) d.out_length buffer (put_bytes out bytes buffer)
              (put-Changes out (out + length bytes) out bytes buffer (omega arith) (omega arith)
                room)
              (omega (arith, e2)),
    )

abbrev Reads : Peer → ℕ → List ℕ → Port → Option Drained → Type 0
Reads peer out buffer p r = (d : Drained) × (r ≡ some d) × Gives peer out buffer p d

-- The loop is over.
ends :
    (peer : Peer) (out : ℕ) (buffer arrived : List ℕ) (p p1 : Port) (ret : ℤ)
    → Comes peer p.stream p.client arrived
    → contents p1.stream p1.memory ≡ contents p.stream p.memory ++ arrived
    → Gives peer out buffer p
        (record { port = p1; dst = some buffer; result = ret; out_length = out })
ends peer out buffer arrived p p1 ret came e =
    (buffer, [], arrived, came, refl, omega arith, sym e, sym (append-nil (take out buffer)), refl)

module _ (peer : Peer) (want fuel : ℕ) (fits : IsU32 want)
    (goes_on : Option (List ℕ) → ℕ → Port → Option Drained)
    (later : (buffer : List ℕ) (out : ℕ) (p : Port)
      → IsLive p.stream
      → p.stream.buffer_size ≤ length p.memory
      → want ≤ length buffer
      → out ≤ want
      → want ≤ out + fuel
      → Reads peer out buffer p (goes_on (some buffer) out p)) where
  round-Reads :
      (buffer : List ℕ) (out : ℕ) (p : Port) (f : Found)
      → p.stream.buffer_size ≤ length p.memory
      → want ≤ length buffer
      → out < want
      → want ≤ out + suc fuel
      → Finds p.stream f
      → Gains peer p f
      → Reads peer out buffer p (take_round goes_on (some buffer) want out f)
  unfolding take_round
  round-Reads buffer out p (ended p1 ret) room big lt le finds (arrived, (e, l, b, i, z), came) = (
    record { port = p1; dst = some buffer; result = ret; out_length = out },
    refl,
    ends peer out buffer arrived p p1 ret came e,
  )
  round-Reads buffer out p (found p1 view) room big lt le (v, balanced, more, ready, shown)
        (arrived, (e, l, b, i, z), go) =
      let n = taken_bytes want out view in
      let (hn, visible, left, same) = taken_lem {s = p1.stream} want out view v ready shown lt in
      let room1 : p1.stream.buffer_size ≤ length p1.memory = omega (arith, l, b, room) in
      let (ok, live, t, o) = release_shown v n ready hn visible in
      let bytes = view_bytes p1 view n in
      let count = view_bytes_length p1 v room1 ready view shown n hn visible in
      let next : u32 (out + n) ≡ out + n = omega (arith, left, fits) in
      let p2 = record p1 { stream = (consumer_release_bytes p1.stream n).0 } in
      let buffer1 = put_bytes out bytes buffer in
      let inside : out + length bytes ≤ length buffer = omega (arith, left, count) in
      let kept =
        put-Changes out (out + length bytes) out bytes buffer (omega arith) (omega arith) inside in
      let (d, ed, gives) =
        later buffer1 (out + n) p2 live (omega (arith, release_size p1.stream n, room1))
          (omega (arith, kept.0)) (omega (arith, left)) (omega (arith, hn)) in
      subst (λ k. Reads peer out buffer p (rest k)) (sym same)
        (if_elim (Reads peer out buffer p) (is_neg (consumer_release_bytes p1.stream n).1) _ _
          (λ g. absurd (ground (arith, ok, g)))
          (λ _. (
            d,
            ap (λ k. goes_on (some buffer1) k p2) next ∙ ed,
            combine peer out buffer bytes arrived p p2 d go (release_id p1.stream n ∙ i)
                (release_slot_size p1.stream n ∙ z)
                (sym e ∙ view_bytes_split p1 v room1 ready view shown n hn visible) inside
                (subst (λ k. Gives peer (out + k) buffer1 p2 d) (sym count) gives),
          )))
    where
      -- The end of the round, on a count of bytes to release.
      rest : ℕ → Option Drained
      rest k =
          let n = taken_bytes want out view in
          let dst1 = some (put_bytes out (view_bytes p1 view n) buffer) in
          let (s, ret) = consumer_release_bytes p1.stream k in
          let p2 = record p1 { stream = s } in
          if is_neg ret
          then some
              (record { port = note_error p2 ret; dst = dst1; result = ret; out_length = out })
          else goes_on dst1 (u32 (out + n)) p2

drain-Reads :
    (fuel : ℕ) (peer : Peer) (fast : FastRead) (want : ℕ)
    → IsU32 want
    → Delivers peer fast
    → (buffer : List ℕ) (out : ℕ) (p : Port) → IsLive p.stream
    → p.stream.buffer_size ≤ length p.memory
    → want ≤ length buffer
    → out ≤ want
    → want ≤ out + fuel
    → Reads peer out buffer p (drain fuel peer fast (some buffer) want out p)
unfolding drain
drain-Reads zero peer fast want fits law buffer out p v room big ho le =
    if_elim (Reads peer out buffer p) (ltb out want) _ _ (λ e. absurd (ground (arith, e)))
      (λ _. (
        _,
        refl,
        ends peer out buffer [] p p (pos 0) nothing (sym (append-nil (contents p.stream p.memory))),
      ))
drain-Reads (suc fuel) peer fast want fits law buffer out p v room big ho le =
    if_elim (Reads peer out buffer p) (not (ltb out want)) _ _
      (λ _. (
        _,
        refl,
        ends peer out buffer [] p p (pos 0) nothing (sym (append-nil (contents p.stream p.memory))),
      ))
      (λ e.
        round-Reads peer want fuel fits (λ dst1 out1 p1. drain fuel peer fast dst1 want out1 p1)
          (λ buffer1 out1 p1 v1 room1 big1 ho1 le1.
            drain-Reads fuel peer fast want fits law buffer1 out1 p1 v1 room1 big1 ho1 le1)
          buffer out p (find_view peer fast p) room big (ground (arith, e)) le
          (find_view-Finds peer fast p v) (find_view-Gains peer fast p law v room))

-- On an open stream with a valid ring, a 32-bit offset and a buffer of its declared size, for
-- every other end and every fast read that writes only where it is told to and, where it succeeds,
-- does what the word loop does (the payload that the other end has next is then there, and its
-- words are off the link), a read of a 32-bit length into a buffer with room for it returns, and
-- the bytes that it counts are at the front of the caller's buffer, whose rest stays. They are the
-- first of the bytes that were pending in the ring, followed by those that arrived, and what they
-- leave of these is pending afterwards, in the same order. What arrived are the payloads of the
-- other end's answers to the requests for slots of this stream, with its number and slot size,
-- that the client sent one after the other: the bytes of the words that the other end gives for
-- idle words, as many as the answer's header says, without the padding.
pub read-Gives :
    (peer : Peer) (fast : FastRead) (p : Port) (buffer : List ℕ) (want : ℕ)
    → Delivers peer fast
    → IsLive p.stream
    → p.stream.stream_id ≢ 0
    → p.stream.buffer_size ≤ length p.memory
    → IsU32 want
    → want ≤ length buffer
    → (d : Drained) × (read peer fast p (some buffer) want ≡ some d) × Gives peer 0 buffer p d
unfolding read read_or_discard
read-Gives peer fast p buffer want law v h room fits big =
    if_elim (Reads peer 0 buffer p)
      (p.stream.stream_id == 0 || (not false && (is_null (some buffer) && not (want == 0)))) _ _
      (λ e. absurd (ground (arith, e, h)))
      (λ _.
        drain-Reads want peer fast want fits law buffer 0 p v room big (omega arith) (omega arith))
