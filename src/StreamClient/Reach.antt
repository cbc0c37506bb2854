-- ===== src/StreamClient/Reach.antt =====
-- The life of a stream: no sequence of the calls of stream_client.c and stream.c leaves the ring invalid.
use chis_link.Common.{
  Bool, not, ◌&&◌, ◌||◌, ◌==◌, ℕ, ◌+◌, ◌≡◌, inl, inr, sym, ap, ◌∙◌, arith, List, Bool, not, ◌||◌,
  ltb, length, ◌==◌, if◌then◌else◌, if_elim, Option, none, some, IsU32, u32, ℤ, pos, neg, is_neg,
}
use mathlib.Core.Path.{subst}
use chis_link.Proto.{Header}
use chis_link.Proto.Codes.{stream_open, stream_block_size, stream_open_path_offset}
use chis_link.Client.{Peer, Client}
use chis_link.Stream.{
  Stream, State, opened, closed, reset, consumer_release, consumer_release_bytes, no_slots,
}
use chis_link.Stream
use chis_link.Stream.Refine.Init.{reset-IsValid}
use chis_link.Stream.Refine.Release.{release-Refines, release_bytes-Refines}
use chis_link.StreamClient.{
  Target, FastRead, Port, Drained, command, bad_packet_error, recv_payload, recv_slot, recv_into,
  read_or_discard, kept_dst, is_null, Received,
}
use chis_link.StreamClient.Receive.{
  IsLive, noted-IsValid, note-IsLive, Brings, recv_payload-Brings, recv_slot-Receives,
}
use chis_link.StreamClient.Balance.{release_offset, release_bytes_offset}
use chis_link.StreamClient.Drain.{drain-Returns}
use chis_link.StreamClient.Control.{
  open_chunks, open_stream, take_opened, close, pump, take_closed, poll, take_status, RemoteStatus,
  credit, seek, take_done, send, take_written,
}

abbrev LiveAfter : Client × Stream × ℤ → Type 0
LiveAfter r = IsLive r.1

pub noted-IsLive :
    {s : Stream} (id low high rx tx : ℕ) (state : State) (code : ℤ)
    → IsU32 rx
    → IsLive s
    → IsLive (record s {
      stream_id = id;
      remote_size_low = low;
      remote_size_high = high;
      rx_offset = rx;
      tx_offset = tx;
      state = state;
      last_error = code;
    })
noted-IsLive id low high rx tx state code fits v = record {
  valid = noted-IsValid id low high rx tx state code v.valid;
  offset_fits = fits;
}

reset-IsLive : {s : Stream} → IsLive s → IsLive (reset s)
unfolding reset
reset-IsLive v = record { valid = (reset-IsValid v.valid).0; offset_fits = omega arith }

guarded :
    (b : Bool) (x y : Client × Stream × ℤ)
    → LiveAfter x
    → LiveAfter y
    → LiveAfter (if b then x else y)
guarded b x y p q = if_elim LiveAfter b x y (λ _. p) (λ _. q)

-- The ends of the commands, whatever the answer is.
module _ (peer : Peer) (junk : ℕ) {s : Stream} (v : IsLive s) where
  take_closed-IsLive : (a : Client × ℤ × Option Header) → LiveAfter (take_closed peer junk s a)
  unfolding take_closed
  take_closed-IsLive (c, ret, h) = guarded (is_neg ret) _ _ (note-IsLive Stream.error ret v) (
      noted-IsLive 0 s.remote_size_low s.remote_size_high s.rx_offset s.tx_offset closed
        s.last_error v.offset_fits v)

  take_done-IsLive :
      (t : Stream) (a : Client × ℤ × Option Header)
      → IsLive t
      → LiveAfter (take_done peer junk s t a)
  unfolding take_done
  take_done-IsLive t (c, ret, h) w = guarded (is_neg ret) _ _ (note-IsLive Stream.error ret v) w

  take_written-IsLive : (a : Client × ℤ × Option Header) → LiveAfter (take_written peer s a)
  unfolding take_written
  take_written-IsLive (c, ret, none) = note-IsLive Stream.error ret v
  take_written-IsLive (c, ret, some h) = guarded (is_neg ret) _ _ (note-IsLive Stream.error ret v) (
      guarded (not (h.length == 4)) _ _ (note-IsLive s.state bad_packet_error v) (
        noted-IsLive s.stream_id s.remote_size_low s.remote_size_high s.rx_offset _ s.state
          s.last_error v.offset_fits v))

  take_opened-IsLive : (a : Client × ℤ × Option Header) → LiveAfter (take_opened peer s a)
  unfolding take_opened
  take_opened-IsLive (c, ret, none) = note-IsLive Stream.error ret v
  take_opened-IsLive (c, ret, some h) = guarded (is_neg ret) _ _ (note-IsLive Stream.error ret v) (
      guarded (not (h.length == 16)) _ _ (note-IsLive Stream.error bad_packet_error v)
        (noted-IsLive _ _ _ 0 0 _ (pos 0) (omega arith) v))

  take_status-IsLive : (a : Client × ℤ × Option Header) → IsLive (take_status peer s a).1
  unfolding take_status
  take_status-IsLive (c, ret, none) = note-IsLive Stream.error ret v
  take_status-IsLive (c, ret, some h) =
      if_elim (λ (t : Client × Stream × ℤ × Option RemoteStatus). IsLive t.1) (is_neg ret) _ _
        (λ _. note-IsLive Stream.error ret v)
        (λ _.
          if_elim (λ (t : Client × Stream × ℤ × Option RemoteStatus). IsLive t.1)
            (not (h.length == 16)) _ _ (λ _. note-IsLive s.state bad_packet_error v)
            (λ _. note-IsLive s.state _ v))

module _ (peer : Peer) (junk : ℕ) (c : Client) {s : Stream} (v : IsLive s) where
  close-IsLive : LiveAfter (close peer junk c s)
  unfolding close
  close-IsLive = guarded (s.stream_id == 0) _ _ v (take_closed-IsLive peer junk v _)

  pump-IsLive : LiveAfter (pump peer junk c s)
  unfolding pump
  pump-IsLive = guarded (s.stream_id == 0) _ _ v (take_closed-IsLive peer junk v _)

  credit-IsLive : (consumed_bytes : ℕ) → LiveAfter (credit peer junk c s consumed_bytes)
  unfolding credit
  credit-IsLive consumed_bytes =
      guarded (s.stream_id == 0) _ _ v (take_done-IsLive peer junk v s _ v)

  seek-IsLive : (offset : ℕ) → LiveAfter (seek peer junk c s offset)
  unfolding seek
  seek-IsLive offset = guarded (s.stream_id == 0) _ _ v (
      take_done-IsLive peer junk v _ _
        (noted-IsLive s.stream_id _ _ (u32 offset) _ opened _ (omega arith) (reset-IsLive v)))

  send-IsLive : (bytes : Option (List ℕ)) (n : ℕ) → LiveAfter (send peer c s bytes n)
  unfolding send
  send-IsLive bytes n = guarded _ _ _ v (take_written-IsLive peer junk v _)

  poll-IsLive : IsLive (poll peer c s).1
  unfolding poll
  poll-IsLive =
      if_elim (λ (t : Client × Stream × ℤ × Option RemoteStatus). IsLive t.1) (s.stream_id == 0) _ _
        (λ _. v) (λ _. take_status-IsLive peer junk v _)

  open_stream-IsLive :
      (kind : ℕ) (target : Option (List ℕ)) → LiveAfter (open_stream peer c s kind target)
  unfolding open_stream
  open_stream-IsLive kind none = v
  open_stream-IsLive kind (some target) =
      let fresh = reset s in
      let bad =
        length target == 0
        || (s.buffer == 0 || (no_slots s.slots || (s.slot_count == 0 || s.slot_size == 0))) in
      let a = command peer c stream_open (open_chunks fresh kind target) in
      guarded bad (c, s, neg 1) _ v
        (guarded (not (s.stream_id == 0)) (c, s, neg 5) _ v
          (guarded (ltb stream_block_size (stream_open_path_offset + (length target + 1)))
            (c, s, neg 2) (take_opened peer fresh a) v
            (take_opened-IsLive peer junk (reset-IsLive v) a)))

  recv_into-IsLive :
      {X : Type 0} (target : Target X) (x : X) (n : ℕ)
      → IsLive (recv_into peer c s target x n).stream
  unfolding recv_into
  recv_into-IsLive {X = X} target x n =
      let r = recv_payload peer c s target x n in
      let w : IsLive r.stream = brought r (recv_payload-Brings peer c s target x n) in
      if_elim (λ (t : Received X). IsLive t.stream) (is_neg r.result) r _ (λ _. w)
        (λ _.
          noted-IsLive r.stream.stream_id _ _ _ _ r.stream.state r.stream.last_error (omega arith)
            w)
    where
      brought : (r : Received X) → Brings s n r → IsLive r.stream
      brought r (inl (e, (state, code, q))) = subst IsLive (sym q) (note-IsLive state code v)
      brought r (inr (e, q, le)) = subst IsLive (sym q) v

-- The port after a command.
abbrev after : Port → Client × Stream × ℤ → Port
after p r = record p { client = r.0; stream = r.1 }

-- One call. The application's are `cl_stream_consumer_release` and its form for bytes. Other ends, junk and
-- arguments are any; a read counts its bytes in 32 bits.
pub data Step : Port → Port → Type 1 where
  opens :
      {p : Port} (peer : Peer) (kind : ℕ) (target : Option (List ℕ))
      → Step p (after p (open_stream peer p.client p.stream kind target))
  closes :
      {p : Port} (peer : Peer) (junk : ℕ) → Step p (after p (close peer junk p.client p.stream))
  pumps : {p : Port} (peer : Peer) (junk : ℕ) → Step p (after p (pump peer junk p.client p.stream))
  polls :
      {p : Port} (peer : Peer)
      → Step p (record p {
        client = (poll peer p.client p.stream).0;
        stream = (poll peer p.client p.stream).1;
      })
  credits :
      {p : Port} (peer : Peer) (junk consumed_bytes : ℕ)
      → Step p (after p (credit peer junk p.client p.stream consumed_bytes))
  seeks :
      {p : Port} (peer : Peer) (junk offset : ℕ)
      → Step p (after p (seek peer junk p.client p.stream offset))
  sends :
      {p : Port} (peer : Peer) (bytes : Option (List ℕ)) (n : ℕ)
      → Step p (after p (send peer p.client p.stream bytes n))
  receives : {p : Port} (peer : Peer) (fast : FastRead) → Step p (recv_slot peer fast p).0
  receives_into :
      {p : Port} {X : Type 0} (peer : Peer) (target : Target X) (x : X) (n : ℕ)
      → Step p (record p {
        client = (recv_into peer p.client p.stream target x n).client;
        stream = (recv_into peer p.client p.stream target x n).stream;
      })
  reads :
      {p : Port} (peer : Peer) (fast : FastRead) (discarding : Bool) (dst : Option (List ℕ)) (n : ℕ)
      (d : Drained)
      → IsU32 n
      → read_or_discard peer fast p discarding dst n ≡ some d
      → Step p d.port
  releases : {p : Port} → Step p (record p { stream = (consumer_release p.stream).0 })
  releases_bytes :
      {p : Port} (n : ℕ) → Step p (record p { stream = (consumer_release_bytes p.stream n).0 })

pub data Reaches : Port → Port → Type 1 where
  stays : {p : Port} → Reaches p p
  goes : {p q r : Port} → Step p q → Reaches q r → Reaches p r

some-drained : (a b : Drained) → some a ≡ some b → a ≡ b
some-drained a b e = ap (λ (r : Option Drained). elim r [ none ↦ a | some d ↦ d ]) e

read-IsLive :
    (peer : Peer) (fast : FastRead) (p : Port) (discarding : Bool) (dst : Option (List ℕ)) (n : ℕ)
    (d : Drained)
    → IsLive p.stream
    → IsU32 n
    → read_or_discard peer fast p discarding dst n ≡ some d
    → IsLive d.port.stream
unfolding read_or_discard
read-IsLive peer fast p discarding dst n d v fits =
    if_elim (λ (r : Option Drained). r ≡ some d → IsLive d.port.stream)
      (p.stream.stream_id == 0 || (not discarding && (is_null dst && not (n == 0)))) _ _
      (λ _ e.
        subst (λ (t : Drained). IsLive t.port.stream)
          (some-drained (record { port = p; dst = dst; result = neg 1; out_length = 0 }) d e) v)
      (λ _ e.
        let (d1, e1, l) =
          drain-Returns n peer fast n fits (kept_dst discarding dst) 0 p v (omega arith)
            (omega arith) in
        subst (λ (t : Drained). IsLive t.port.stream) (some-drained d1 d (sym e1 ∙ e)) l.0)

Step-IsLive : {p q : Port} → Step p q → IsLive p.stream → IsLive q.stream
Step-IsLive {p = p} (opens peer kind target) v = open_stream-IsLive peer 0 p.client v kind target
Step-IsLive {p = p} (closes peer junk) v = close-IsLive peer junk p.client v
Step-IsLive {p = p} (pumps peer junk) v = pump-IsLive peer junk p.client v
Step-IsLive {p = p} (polls peer) v = poll-IsLive peer 0 p.client v
Step-IsLive {p = p} (credits peer junk n) v = credit-IsLive peer junk p.client v n
Step-IsLive {p = p} (seeks peer junk offset) v = seek-IsLive peer junk p.client v offset
Step-IsLive {p = p} (sends peer bytes n) v = send-IsLive peer 0 p.client v bytes n
Step-IsLive {p = p} (receives peer fast) v = (recv_slot-Receives peer fast p v).0
Step-IsLive {p = p} (receives_into peer target x n) v =
    recv_into-IsLive peer 0 p.client v target x n
Step-IsLive {p = p} (reads peer fast discarding dst n d fits e) v =
    read-IsLive peer fast p discarding dst n d v fits e
Step-IsLive {p = p} releases v = record {
  valid = (release-Refines v.valid).0;
  offset_fits = rw (release_offset p.stream) v.offset_fits;
}
Step-IsLive {p = p} (releases_bytes n) v = record {
  valid = (release_bytes-Refines n v.valid).0;
  offset_fits = rw (release_bytes_offset p.stream n) v.offset_fits;
}

-- However the calls of the stream client and the application's releases follow each other, with
-- any other ends and arguments (a read's length has 32 bits), from a valid ring whose offset has
-- 32 bits every reached stream has a valid ring and such an offset.
pub Reaches-IsLive : {p q : Port} → Reaches p q → IsLive p.stream → IsLive q.stream
Reaches-IsLive stays v = v
Reaches-IsLive (goes t ts) v = Reaches-IsLive ts (Step-IsLive t v)
