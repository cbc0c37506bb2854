-- ===== src/Stream/Pending.antt =====
-- The invariant of the stream ring, and the queue of pieces that a valid ring stands for.
use chis_link.Common.{ℕ, zero, suc, ◌-◌, ◌*◌, ◌≤◌, ◌<◌, ◌≡◌, refl, ap, ◌∙◌, arith}
use chis_link.Common.{List, [], ◌∷◌, ◌++◌, All, length, IsU16, IsU32}
use mathlib.Core.Path.{subst}
use chis_link.Stream.{Slot, Stream, read_head, slot_ready, next_slot}
use chis_link.Stream.Fifo.{Piece, Fifo, skip}
use chis_link.Stream.Window.{window, length-window, After}

-- A slot that holds data: 1 to `size` bytes.
pub record IsReady (size : ℕ) (slot : Slot) : Type 0 where
  pub flag : slot.flags ≡ slot_ready
  pub offset_fits : IsU32 slot.offset
  pub some_bytes : 0 < slot.length
  pub fits : slot.length ≤ size

-- The slots that are ready, oldest first.
abbrev pub ready_window : Stream → List Slot
ready_window s = window s.slot_count s.slots s.read_slot s.ready_slots

-- What of a stream the ring's operations rest on: its storage, its indices, its ready slots.
pub record IsValid (s : Stream) : Type 0 where
  pub buffer_set : 0 < s.buffer
  pub slot_room : s.slot_count ≤ length s.slots
  pub some_slots : 0 < s.slot_count
  pub few_slots : s.slot_count < 256
  pub some_size : 0 < s.slot_size
  pub size_fits : IsU16 s.slot_size
  pub buffer_room : s.slot_count * s.slot_size ≤ s.buffer_size
  pub read_in : s.read_slot < s.slot_count
  pub write_in : s.write_slot < s.slot_count
  pub ready_in : s.ready_slots ≤ s.slot_count
  pub round : After s.slot_count s.read_slot s.ready_slots s.write_slot
  pub data_ready : All (IsReady s.slot_size) (ready_window s)
  pub offset_in : 0 < s.ready_slots → s.read_offset < (read_head s).length
  pub offset_idle : s.ready_slots ≡ 0 → s.read_offset ≡ 0

abbrev pub piece : Slot → Piece
piece slot = record { offset = slot.offset; count = slot.length }

abbrev pub pieces : List Slot → Fifo
pieces [] = []
pieces (slot ∷ slots) = piece slot ∷ pieces slots

-- `read_offset` bytes of the oldest piece are gone.
abbrev pub skip_front : ℕ → Fifo → Fifo
skip_front n [] = []
skip_front n (p ∷ q) = skip n p ∷ q

-- What the application has still to read.
abbrev pub pending : Stream → Fifo
pending s = skip_front s.read_offset (pieces (ready_window s))

pub length-pieces : (slots : List Slot) → length (pieces slots) ≡ length slots
length-pieces [] = refl
length-pieces (slot ∷ slots) = ap suc (length-pieces slots)

pub pieces-append : (xs ys : List Slot) → pieces (xs ++ ys) ≡ pieces xs ++ pieces ys
pieces-append [] ys = refl
pieces-append (x ∷ xs) ys = ap (λ t. piece x ∷ t) (pieces-append xs ys)

pub length-skip_front : (n : ℕ) (q : Fifo) → length (skip_front n q) ≡ length q
length-skip_front n [] = refl
length-skip_front n (p ∷ q) = refl

skip_zero : (p : Piece) → IsU32 p.offset → skip 0 p ≡ p
skip_zero p h = ground arith

pub skip_front_zero :
    (size : ℕ) (slots : List Slot)
    → All (IsReady size) slots
    → skip_front 0 (pieces slots) ≡ pieces slots
skip_front_zero size [] h = refl
skip_front_zero size (slot ∷ slots) h =
    ap (λ p. p ∷ pieces slots) (skip_zero (piece slot) h.0.offset_fits)

-- A piece that joins the queue is not the one that is partly read.
pub skip_front-append :
    (n : ℕ) (q : Fifo) (p : Piece)
    → IsU32 p.offset
    → (length q ≡ 0 → n ≡ 0)
    → skip_front n (q ++ (p ∷ [])) ≡ skip_front n q ++ (p ∷ [])
skip_front-append n [] p fits idle = rw (idle refl) (ap (λ t. t ∷ []) (skip_zero p fits))
skip_front-append n (x ∷ q) p fits idle = refl

-- A run of at least one slot begins with its first slot.
pub window_first :
    (s : Stream)
    → 0 < s.ready_slots
    → ready_window s
      ≡ read_head s
        ∷ window s.slot_count s.slots (next_slot s.slot_count s.read_slot) (s.ready_slots - 1)
window_first s h = first s.ready_slots h
  where
    first :
        (n : ℕ)
        → 0 < n
        → window s.slot_count s.slots s.read_slot n
          ≡ read_head s ∷ window s.slot_count s.slots (next_slot s.slot_count s.read_slot) (n - 1)
    first zero p = absurd (omega arith)
    first (suc n) p =
        ap (λ k. read_head s ∷ window s.slot_count s.slots (next_slot s.slot_count s.read_slot) k)
          (omega arith)

module _ {s : Stream} (v : IsValid s) where
  pub length-pending : length (pending s) ≡ s.ready_slots
  length-pending =
      length-skip_front s.read_offset (pieces (ready_window s))
      ∙ length-pieces (ready_window s)
      ∙ length-window s.slot_count s.slots s.read_slot s.ready_slots

  -- While data is ready, the slot that is read next is ready.
  pub head-IsReady : 0 < s.ready_slots → IsReady s.slot_size (read_head s)
  head-IsReady h = (subst (All (IsReady s.slot_size)) (window_first s h) v.data_ready).0
