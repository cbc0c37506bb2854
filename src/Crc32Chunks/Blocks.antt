-- ===== src/Crc32Chunks/Blocks.antt =====
-- What a segmented checksum stands for, and one round of its loop.
use chis_link.Common.{ℕ, ◌+◌, ◌*◌, ◌≤◌, ◌<◌, bit_xor, ◌≡◌, sym, ap, ◌∙◌, arith}
use chis_link.Common.{
  List, ◌++◌, true, IsByte, All, length, length-append, length-drop, length-set, take, drop, get_or,
  set, pos, neg,
}
use chis_link.Common.{
  drop_all, drop-append_le, take-append_le, take_all, get_or-set_self, get_or-set_ne,
}
use native.Mathlib.Decide.{ℕ_discrete}
use chis_link.Crc32
use chis_link.Crc32.Reference
use chis_link.Crc32.Reference.{update-shift_bytes, shift_bytes-append}
use chis_link.Crc32Chunks.{Chunks, absorb, finish_current}

-- The bytes of block `k`.
abbrev pub block : ℕ → List ℕ → ℕ → List ℕ
block c xs k = take c (drop (k * c) xs)

-- The state after the bytes `xs` went in, in blocks of `c`: the first `count` values are the
-- checksums of the first `count` blocks, and the register holds what follows them.
pub record Holds (c : ℕ) (xs : List ℕ) (s : Chunks) : Type 0 where
  pub size : s.chunk_size ≡ c
  pub positive : 0 < c
  pub narrow : c < 4294967296
  pub usable : 0 < s.capacity
  pub capacity_fits : s.capacity < 4294967296
  pub room : s.capacity ≤ length s.values
  pub total : s.count * c + s.chunk_bytes ≡ length xs
  pub within : s.count ≤ s.capacity
  pub done : (k : ℕ) → k < s.count → get_or s.values k 0 ≡ Reference.reference (block c xs k)
  pub open_block : s.current ≡ Reference.shift_bytes 0xffffffff (drop (s.count * c) xs)
  pub valid : Reference.IsValid s.globals
  pub ready : s.globals.ready ≡ true

-- Blocks that lie within `xs` stay the same when more bytes follow.
block-append :
    (c : ℕ) (xs ys : List ℕ) (k n : ℕ)
    → k < n
    → n * c ≤ length xs
    → block c (xs ++ ys) k ≡ block c xs k
block-append c xs ys k n h room =
    ap (take c) (drop-append_le (k * c) xs ys (omega (arith, fits)))
    ∙ take-append_le c (drop (k * c) xs) ys (omega (arith, fits, length-drop (k * c) xs))
  where
    fits : k * c + c ≤ n * c
    fits = grind arith

-- The state after one more checksum was stored.
abbrev pub stored : Chunks → Chunks
stored s = record s {
  values = set s.values s.count (Crc32.finalize s.current);
  count = s.count + 1;
  chunk_bytes = 0;
  current = 0xffffffff;
}

-- `chunks_finish_current` stores a checksum while there is room for it, and refuses otherwise.
pub finish_current_room :
    (s : Chunks)
    → s.count < s.capacity
    → s.capacity < 4294967296
    → s.globals.ready ≡ true
    → finish_current s ≡ (stored s, pos 0)
unfolding finish_current
finish_current_room s h narrow ready = ground (arith, Reference.init_ready s.globals ready)

pub finish_current_full : (s : Chunks) → s.capacity ≤ s.count → finish_current s ≡ (s, neg 2)
unfolding finish_current
finish_current_full s h = ground arith

module _ (c : ℕ) (xs : List ℕ) (s : Chunks) (h : Holds c xs s) where
  -- Bytes that fit the open block join it.
  pub absorb-Holds :
      (ys : List ℕ)
      → All IsByte ys
      → s.chunk_bytes + length ys ≤ c
      → Holds c (xs ++ ys) (absorb s ys)
  unfolding absorb
  absorb-Holds ys by fits = record {
    size = h.size;
    positive = h.positive;
    narrow = h.narrow;
    usable = h.usable;
    capacity_fits = h.capacity_fits;
    room = h.room;
    total = omega (arith, length-append xs ys, h.total, h.narrow);
    within = h.within;
    done = λ k hk.
        h.done k hk
        ∙ ap Reference.reference (sym (block-append c xs ys k s.count hk (omega (arith, h.total))));
    open_block = joined;
    valid = h.valid;
    ready = h.ready;
  }
    where
      joined :
          Crc32.update s.globals.table s.current ys
          ≡ Reference.shift_bytes 0xffffffff (drop (s.count * c) (xs ++ ys))
      joined =
          update-shift_bytes s.globals.table s.current ys (h.valid.filled h.ready) by
          ∙ ap (λ t. Reference.shift_bytes t ys) h.open_block
          ∙ sym (shift_bytes-append 0xffffffff (drop (s.count * c) xs) ys)
          ∙ ap (Reference.shift_bytes 0xffffffff)
              (sym (drop-append_le (s.count * c) xs ys (omega (arith, h.total))))

  last_block : s.chunk_bytes ≤ c → block c xs s.count ≡ drop (s.count * c) xs
  last_block fits =
      take_all c (drop (s.count * c) xs) (omega (arith, length-drop (s.count * c) xs, h.total))

  -- With the open block's checksum stored, the values are those of one block more.
  pub stored_done :
      s.chunk_bytes ≤ c
      → s.count < s.capacity
      → (k : ℕ) → k < s.count + 1
      → get_or (stored s).values k 0 ≡ Reference.reference (block c xs k)
  unfolding Reference.reference Crc32.finalize
  stored_done fits more k hk = elim (ℕ_discrete k s.count) [
    | yes e ↦ rw e (
        get_or-set_self s.values s.count (Crc32.finalize s.current) 0 (omega (arith, h.room))
        ∙ ap (λ t. bit_xor t 0xffffffff)
            (h.open_block ∙ ap (Reference.shift_bytes 0xffffffff) (sym (last_block fits))))
    | no ne ↦
        get_or-set_ne s.values (Crc32.finalize s.current) 0 (λ e. ne (sym e))
        ∙ h.done k (omega arith)
  ]

  -- A full block's checksum is stored, and the next block starts empty.
  pub stored-Holds : s.chunk_bytes ≡ c → s.count < s.capacity → Holds c xs (stored s)
  unfolding Reference.shift_bytes
  stored-Holds full more = record {
    size = h.size;
    positive = h.positive;
    narrow = h.narrow;
    usable = h.usable;
    capacity_fits = h.capacity_fits;
    room = omega (arith, h.room, length-set s.values s.count (Crc32.finalize s.current));
    total = omega (arith, h.total);
    within = omega arith;
    done = stored_done (omega arith) more;
    open_block = sym (
        ap (Reference.shift_bytes 0xffffffff)
          (drop_all ((s.count + 1) * c) xs (omega (arith, h.total))));
    valid = h.valid;
    ready = h.ready;
  }
