-- ===== src/Stream/Refine/Simulation.antt =====
-- What it means that an operation of the ring is an operation of the queue.
use chis_link.Common.{◌<◌, ◌≡◌, refl, sym, arith}
use chis_link.Common.{List, [], ◌∷◌, false, length, ℤ}
use mathlib.Core.Path.{subst}
use chis_link.Stream.{Slot, Stream, no_slots}
use chis_link.Stream.Fifo.{Fifo}
use chis_link.Stream.Pending.{IsValid, pending}

pub has_slots : (xs : List Slot) → 0 < length xs → no_slots xs ≡ false
has_slots [] h = absurd (omega arith)
has_slots (x ∷ xs) h = refl

-- A ring operation keeps the ring valid, and its queue and result are those of the queue operation.
abbrev pub Refines : Fifo × ℤ → Stream × ℤ → Type 0
Refines spec r = IsValid r.0 × ((pending r.0, r.1) ≡ spec)

pub Refines-by :
    (spec : Fifo × ℤ) (r : Stream × ℤ) (s : Stream) (n : ℤ)
    → r ≡ (s, n)
    → IsValid s
    → spec ≡ (pending s, n)
    → Refines spec r
Refines-by spec r s n e v q = subst (Refines spec) (sym e) (v, sym q)
