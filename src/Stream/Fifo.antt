-- ===== src/Stream/Fifo.antt =====
-- The promise of the stream ring: a bounded first-in first-out queue of pieces of the stream.
use chis_link.Common.{
  ℕ, zero, suc, ◌+◌, ◌-◌, List, [], ◌∷◌, ◌++◌, ◌||◌, ltb, leb, ◌==◌, if◌then◌else◌, length, u32,
}
use chis_link.Common.{ℤ, pos, ◌≤◌, ◌<◌, ◌≡◌, ◌⊎◌, inl, inr, arith}
use chis_link.Stream.{err_full, err_empty, err_too_large}

-- `count` bytes of the stream, from `offset` on.
pub record Piece : Type 0 where
  pub offset : ℕ
  pub count : ℕ

abbrev pub Fifo : Type 0
Fifo = List Piece

-- The piece without its first `n` bytes.
abbrev pub skip : ℕ → Piece → Piece
skip n p = record { offset = u32 (p.offset + n); count = p.count - n }

-- At most `slots` pieces of 1 to `size` bytes.
abbrev pub commit : ℕ → ℕ → Fifo → Piece → Fifo × ℤ
commit slots size q p =
    if leb slots (length q)
    then (q, err_full)
    else if p.count == 0 || ltb size p.count
    then (q, err_too_large)
    else (q ++ (p ∷ []), pos 0)

abbrev pub peek : Fifo → Piece × ℤ
peek [] = (record { offset = 0; count = 0 }, err_empty)
peek (p ∷ q) = (p, pos 0)

abbrev pub release : Fifo → Fifo × ℤ
release [] = ([], err_empty)
release (p ∷ q) = (q, pos 0)

-- Bytes leave from the front of the first piece only.
abbrev pub release_front : ℕ → Fifo → Fifo × ℤ
release_front n [] = ([], err_empty)
release_front n (p ∷ q) =
    if ltb p.count n
    then (p ∷ q, err_too_large)
    else if ltb n p.count
    then (skip n p ∷ q, pos 0)
    else (q, pos 0)

abbrev pub release_bytes : ℕ → Fifo → Fifo × ℤ
release_bytes zero q = (q, pos 0)
release_bytes (suc n) q = release_front (suc n) q

-- The branches of the queue's operations, for the proofs that a ring is such a queue.
module _ (slots size : ℕ) (q : Fifo) (p : Piece) where
  pub commit_full : slots ≤ length q → commit slots size q p ≡ (q, err_full)
  commit_full h = ground arith

  pub commit_too_large :
      length q < slots
      → (p.count ≡ 0) ⊎ (size < p.count)
      → commit slots size q p ≡ (q, err_too_large)
  commit_too_large h (inl e) = ground arith
  commit_too_large h (inr e) = ground arith

  pub commit_room :
      length q < slots
      → 0 < p.count
      → p.count ≤ size
      → commit slots size q p ≡ (q ++ (p ∷ []), pos 0)
  commit_room h lo hi = ground arith
