-- ===== src/Stream/Refine/Run.antt =====
-- A client of the ring cannot tell it from the bounded queue.
use chis_link.Common.{ℕ, ◌≡◌, refl, ap, ◌∙◌, arith}
use chis_link.Common.{List, [], ◌∷◌, All, Option, some, none, IsU32, ℤ}
use mathlib.Core.Path.{ap₂}
use chis_link.Stream.{
  Stream, producer_commit_at, consumer_peek, consumer_release, consumer_release_bytes,
}
use chis_link.Stream.Fifo
use chis_link.Stream.Fifo.{Piece, Fifo}
use chis_link.Stream.Pending.{IsValid, pending}
use chis_link.Stream.Refine.Simulation.{Refines}
use chis_link.Stream.Refine.Commit.{commit-Refines}
use chis_link.Stream.Refine.Release.{release-Refines, release_bytes-Refines, peek_refines}

-- What the transport and the application call.
pub data Op : Type 0 where
  commit : Piece → Op
  peek : Op
  release : Op
  release_bytes : ℕ → Op

-- What a call shows: its result, and for a peek the piece that it sees.
abbrev pub Reply : Type 0
Reply = ℤ × Option Piece

abbrev seen : Piece × ℤ → Reply
seen (p, n) = (n, some p)

unfoldable pub run : Stream → List Op → List Reply
run s [] = []
run s (commit p ∷ ops) =
    let (s', n) = producer_commit_at s p.offset p.count in (n, none) ∷ run s' ops
run s (peek ∷ ops) =
    let (view, n) = consumer_peek s in
    (n, some (record { offset = view.offset; count = view.length })) ∷ run s ops
run s (release ∷ ops) = let (s', n) = consumer_release s in (n, none) ∷ run s' ops
run s (release_bytes k ∷ ops) = let (s', n) = consumer_release_bytes s k in (n, none) ∷ run s' ops

unfoldable pub run_fifo : ℕ → ℕ → Fifo → List Op → List Reply
run_fifo slots size q [] = []
run_fifo slots size q (commit p ∷ ops) =
    let (q', n) = Fifo.commit slots size q p in (n, none) ∷ run_fifo slots size q' ops
run_fifo slots size q (peek ∷ ops) =
    let (p, n) = Fifo.peek q in (n, some p) ∷ run_fifo slots size q ops
run_fifo slots size q (release ∷ ops) =
    let (q', n) = Fifo.release q in (n, none) ∷ run_fifo slots size q' ops
run_fifo slots size q (release_bytes k ∷ ops) =
    let (q', n) = Fifo.release_bytes k q in (n, none) ∷ run_fifo slots size q' ops

abbrev pub FitsOp : Op → Type 0
FitsOp (commit p) = IsU32 p.offset
FitsOp peek = Unit
FitsOp release = Unit
FitsOp (release_bytes k) = Unit

-- The limits do not change.
abbrev SameLimits : Stream → Stream → Type 0
SameLimits s t = (s.slot_count ≡ t.slot_count) × (s.slot_size ≡ t.slot_size)

commit_limits : (s : Stream) (o n : ℕ) → SameLimits (producer_commit_at s o n).0 s
unfolding producer_commit_at
commit_limits s o n = ground arith

release_limits : (s : Stream) → SameLimits (consumer_release s).0 s
unfolding consumer_release
release_limits s = ground arith

bytes_limits : (s : Stream) (n : ℕ) → SameLimits (consumer_release_bytes s n).0 s
unfolding consumer_release_bytes
bytes_limits s n = ground (arith, release_limits s)

-- A call that is a queue operation, and the calls after it.
goes_on :
    (s : Stream) (spec : Fifo × ℤ) (r : Stream × ℤ) (ops : List Op)
    → Refines spec r
    → SameLimits r.0 s
    → run r.0 ops ≡ run_fifo r.0.slot_count r.0.slot_size (pending r.0) ops
    → ◌≡◌ {A = List Reply}
        ((r.1, none) ∷ run r.0 ops)
        ((spec.1, none) ∷ run_fifo s.slot_count s.slot_size spec.0 ops)
goes_on s spec r ops (v, e) (same_count, same_size) later = ap₂ ◌∷◌ (ap (λ t. (t.1, none)) e) (
    later
    ∙ ap (λ k. run_fifo k r.0.slot_size (pending r.0) ops) same_count
    ∙ ap (λ k. run_fifo s.slot_count k (pending r.0) ops) same_size
    ∙ ap (λ t. run_fifo s.slot_count s.slot_size t.0 ops) e)

-- On a valid ring, no sequence of commit, peek, release and release_bytes calls (with 32-bit
-- offsets) has other results or shows other pieces than the bounded queue of the ring's pending
-- pieces.
pub run_refines :
    (ops : List Op) {s : Stream}
    → IsValid s
    → All FitsOp ops
    → run s ops ≡ run_fifo s.slot_count s.slot_size (pending s) ops
unfolding run run_fifo
run_refines [] v h = refl
run_refines (commit p ∷ ops) {s} v (hp, h) =
    let r = commit-Refines p.offset p.count v hp in
    goes_on s (Fifo.commit s.slot_count s.slot_size (pending s) p)
      (producer_commit_at s p.offset p.count) ops r (commit_limits s p.offset p.count)
      (run_refines ops r.0 h)
run_refines (peek ∷ ops) {s} v (hp, h) = ap₂ ◌∷◌ (ap seen (peek_refines v)) (run_refines ops v h)
run_refines (release ∷ ops) {s} v (hp, h) =
    goes_on s (Fifo.release (pending s)) (consumer_release s) ops (release-Refines v)
      (release_limits s) (run_refines ops (release-Refines v).0 h)
run_refines (release_bytes k ∷ ops) {s} v (hp, h) =
    goes_on s (Fifo.release_bytes k (pending s)) (consumer_release_bytes s k) ops
      (release_bytes-Refines k v) (bytes_limits s k)
      (run_refines ops (release_bytes-Refines k v).0 h)
