-- ===== src/Crc32Chunks/Stream.antt =====
-- The loop of `cl_crc32_chunks_update`, and a whole stream from `init` to `finish`.
use chis_link.Common.{ℕ, zero, suc, ◌+◌, ◌*◌, ◌≤◌, ◌<◌, ◌≡◌, ◌≢◌, refl, sym, ap, ◌∙◌, arith}
use chis_link.Common.{
  List, [], ◌∷◌, ◌++◌, true, false, Option, some, if◌then◌else◌, IsByte, All, All-take, All-drop,
  length, length-append, length-drop, length-take, take, drop, take-append-drop, drop_all, get_or,
  is_neg, pos, ℤ,
}
use chis_link.Common.{◌⊎◌, append-nil, append_assoc}
use mathlib.Core.Path.{subst}
use native.Mathlib.Decide.{ℕ_discrete}
use chis_link.Common.Products.{product_lt}
use chis_link.Crc32
use chis_link.Crc32.{Globals}
use chis_link.Crc32.Reference
use chis_link.Crc32Chunks.{
  Chunks, is_null, init, absorb, finish_current, round_bytes, update_loop, update, finish,
}
use chis_link.Crc32Chunks.Blocks.{
  Holds, block, stored, absorb-Holds, stored-Holds, stored_done, finish_current_room,
}

-- A round takes what fits the open block, and at least one byte.
round_bytes_lem :
    (s : Chunks) (b : ℕ) (rest : List ℕ)
    → s.chunk_bytes < s.chunk_size
    → s.chunk_size < 4294967296
    → (1 ≤ round_bytes s (b ∷ rest))
      × (round_bytes s (b ∷ rest) ≤ length (b ∷ rest))
      × (s.chunk_bytes + round_bytes s (b ∷ rest) ≤ s.chunk_size)
      × ((length (b ∷ rest) ≡ round_bytes s (b ∷ rest))
          ⊎ (s.chunk_bytes + round_bytes s (b ∷ rest) ≡ s.chunk_size))
unfolding round_bytes
round_bytes_lem s b rest open_block narrow = ground arith

-- The values hold room for every block that the bytes complete.
abbrev pub Enough : ℕ → Chunks → List ℕ → List ℕ → Type 0
Enough c s xs ys = length xs + length ys < s.capacity * c + c

-- What an update leaves: the bytes went in, and the open block is not full.
abbrev pub Updated : ℕ → ℕ → List ℕ → Option (Chunks × ℤ) → Type 0
Updated c capacity xs r =
    (t : Chunks) × (r ≡ some (t, pos 0))
    × Holds c xs t
    × (t.chunk_bytes < c)
    × (t.capacity ≡ capacity)

-- The open block and the bytes that are left after one round.
abbrev taken : Chunks → List ℕ → List ℕ
taken s ys = take (round_bytes s ys) ys

abbrev left : Chunks → List ℕ → List ℕ
left s ys = drop (round_bytes s ys) ys

module _ (fuel : ℕ) (s : Chunks) (b : ℕ) (ys : List ℕ) where
  round_open :
      (absorb s (taken s (b ∷ ys))).chunk_bytes ≢ (absorb s (taken s (b ∷ ys))).chunk_size
      → update_loop (suc fuel) s (b ∷ ys)
        ≡ update_loop fuel (absorb s (taken s (b ∷ ys))) (left s (b ∷ ys))
  unfolding update_loop
  round_open ne = ground arith

  round_full :
      (t : Chunks) (n : ℤ)
      → (absorb s (taken s (b ∷ ys))).chunk_bytes ≡ (absorb s (taken s (b ∷ ys))).chunk_size
      → finish_current (absorb s (taken s (b ∷ ys))) ≡ (t, n)
      → update_loop (suc fuel) s (b ∷ ys)
        ≡ (if is_neg n then some (t, n) else update_loop fuel t (left s (b ∷ ys)))
  unfolding update_loop
  round_full t n e f = ground arith

regroup : (s : Chunks) (xs l : List ℕ) → (xs ++ taken s l) ++ left s l ≡ xs ++ l
regroup s xs l =
    append_assoc xs (taken s l) (left s l)
    ∙ ap (λ t. xs ++ t) (take-append-drop (round_bytes s l) l)

absorb_fields :
    (s : Chunks) (ys : List ℕ)
    → s.chunk_bytes + length ys < 4294967296
    → ((absorb s ys).chunk_bytes ≡ s.chunk_bytes + length ys)
      × ((absorb s ys).chunk_size ≡ s.chunk_size)
      × ((absorb s ys).count ≡ s.count)
      × ((absorb s ys).capacity ≡ s.capacity)
      × ((absorb s ys).globals ≡ s.globals)
unfolding absorb
absorb_fields s ys h = (omega arith, refl, refl, refl, refl)

update_loop-Updated :
    (fuel c : ℕ) (xs ys : List ℕ) (s : Chunks)
    → Holds c xs s
    → s.chunk_bytes < c
    → All IsByte ys
    → length ys ≤ fuel
    → Enough c s xs ys
    → Updated c s.capacity (xs ++ ys) (update_loop fuel s ys)
unfolding absorb
update_loop-Updated fuel c xs [] s h lt by hf room =
    (s, unfold update_loop in refl, rw (append-nil xs) h, lt, refl)
update_loop-Updated zero c xs (b ∷ ys) s h lt by hf room = absurd (omega arith)
update_loop-Updated (suc fuel) c xs (b ∷ ys) s h lt by hf room =
    subst (λ zs. Updated c s.capacity zs (update_loop (suc fuel) s l)) (regroup s xs l)
      (elim (ℕ_discrete (s.chunk_bytes + round_bytes s l) c) [
        | yes e ↦
            let shut : update_loop (suc fuel) s l ≡ update_loop fuel (stored s') (left s l) =
              round_full fuel s b ys (stored s') (pos 0) (omega (arith, f, g, h.size))
                (finish_current_room s' (more e) (omega (arith, f, h.capacity_fits)) holds.ready) in
            rw shut (
              update_loop-Updated fuel c (xs ++ taken s l) (left s l) (stored s')
                (stored-Holds c (xs ++ taken s l) s' holds (omega (arith, f, g)) (more e))
                h.positive (All-drop IsByte (round_bytes s l) l by)
                (omega (arith, g, length-drop (round_bytes s l) l))
                (omega
                  (arith, f, g, length-append xs (taken s l), length-drop (round_bytes s l) l)))
        | no ne ↦ rw (round_open fuel s b ys (λ q. ne (omega (arith, q, f, g, h.size)))) (
            update_loop-Updated fuel c (xs ++ taken s l) (left s l) s' holds
              (omega (arith, ne, f, g, r, h.size)) (All-drop IsByte (round_bytes s l) l by)
              (omega (arith, g, length-drop (round_bytes s l) l))
              (omega (arith, f, g, length-append xs (taken s l), length-drop (round_bytes s l) l)))
      ])
  where
    l : List ℕ
    l = b ∷ ys

    s' : Chunks
    s' = absorb s (taken s l)

    r :
        (1 ≤ round_bytes s l)
        × (round_bytes s l ≤ length l)
        × (s.chunk_bytes + round_bytes s l ≤ s.chunk_size)
        × ((length l ≡ round_bytes s l) ⊎ (s.chunk_bytes + round_bytes s l ≡ s.chunk_size))
    r = round_bytes_lem s b ys (omega (arith, h.size)) (omega (arith, h.size, h.narrow))

    g :
        (1 ≤ round_bytes s l)
        × (length (taken s l) ≡ round_bytes s l)
        × (round_bytes s l ≤ length l)
    g = omega (arith, r, length-take (round_bytes s l) l)

    f :
        ((absorb s (taken s l)).chunk_bytes ≡ s.chunk_bytes + length (taken s l))
        × ((absorb s (taken s l)).chunk_size ≡ s.chunk_size)
        × ((absorb s (taken s l)).count ≡ s.count)
        × ((absorb s (taken s l)).capacity ≡ s.capacity)
        × ((absorb s (taken s l)).globals ≡ s.globals)
    f = absorb_fields s (taken s l) (omega (arith, r, g, h.size, h.narrow))

    holds : Holds c (xs ++ taken s l) s'
    holds =
        absorb-Holds c xs s h (taken s l) (All-take IsByte (round_bytes s l) l by)
          (omega (arith, r, g, h.size))

    more : s.chunk_bytes + round_bytes s l ≡ c → s'.count < s'.capacity
    more e = product_lt s.count s.capacity c (omega (arith, r, h.total, room, e))

not_null : (xs : List ℕ) → 0 < length xs → is_null xs ≡ false
not_null [] h = absurd (omega arith)
not_null (x ∷ xs) h = refl

-- An update of a state that holds the bytes `xs`, its open block not full, by bytes `ys` that the
-- values have room for, returns 0 and gives a state that holds `xs` and then `ys`, its open block
-- not full and its capacity the same.
pub update-Holds :
    (c : ℕ) (xs ys : List ℕ) (s : Chunks)
    → Holds c xs s
    → s.chunk_bytes < c
    → All IsByte ys
    → Enough c s xs ys
    → Updated c s.capacity (xs ++ ys) (update s ys)
unfolding update
update-Holds c xs ys s h lt by room =
    subst (Updated c s.capacity (xs ++ ys)) runs
      (update_loop-Updated (length ys) c xs ys s h lt by (omega arith) room)
  where
    runs : update_loop (length ys) s ys ≡ update s ys
    runs = ground (arith, not_null s.values (omega (arith, h.room, h.usable)), h.size, h.positive)

-- A fresh state holds no bytes.
pub init-Holds :
    (g : Globals) (c capacity : ℕ) (values : List ℕ)
    → Reference.IsValid g
    → 0 < c
    → c < 4294967296
    → 0 < capacity
    → capacity < 4294967296
    → capacity ≤ length values
    → (s : Chunks) × (init g c values capacity ≡ some s)
      × Holds c [] s
      × (s.chunk_bytes ≡ 0)
      × (s.capacity ≡ capacity)
unfolding init Crc32.init Reference.shift_bytes
init-Holds g c capacity values v hc nc hp np hv =
    (fresh, ground (arith, not_null values (omega arith)), holds, refl, refl)
  where
    ready : Reference.IsValid (Crc32.prepare_table g) × ((Crc32.prepare_table g).ready ≡ true)
    ready = Reference.prepare_table-IsValid g v

    fresh : Chunks
    fresh = record {
      values = values;
      capacity = capacity;
      count = 0;
      chunk_size = c;
      chunk_bytes = 0;
      total_bytes = 0;
      current = 0xffffffff;
      globals = Crc32.prepare_table g;
    }

    holds : Holds c [] fresh
    holds = record {
      size = refl;
      positive = hc;
      narrow = nc;
      usable = hp;
      capacity_fits = np;
      room = hv;
      total = omega arith;
      within = omega arith;
      done = λ k hk. absurd (omega arith);
      open_block = ap (Reference.shift_bytes 0xffffffff) (sym (drop_all (0 * c) [] (omega arith)));
      valid = ready.0;
      ready = ready.1;
    }

-- After `finish` the values are the checksums of all blocks, of the short last one too.
pub finish_lem :
    (c : ℕ) (xs : List ℕ) (s : Chunks)
    → Holds c xs s
    → s.chunk_bytes < c
    → length xs ≤ s.capacity * c
    → ((finish s).1 ≡ pos 0)
      × (length xs ≤ (finish s).0.count * c)
      × ((finish s).0.count * c < length xs + c)
      × ((k : ℕ)
          → k * c < length xs
          → get_or (finish s).0.values k 0 ≡ Reference.reference (block c xs k))
unfolding finish
finish_lem c xs s h lt room = elim (ℕ_discrete s.chunk_bytes 0) [
  | yes e ↦
      let same : finish s ≡ (s, pos 0) = ground (arith, guard) in
      rw same (
        refl,
        omega (arith, h.total),
        omega (arith, h.total),
        λ k hk. h.done k (product_lt k s.count c (omega (arith, h.total))),
      )
  | no ne ↦
      let more : s.count < s.capacity = product_lt s.count s.capacity c (omega (arith, h.total)) in
      let same : finish s ≡ (stored s, pos 0) =
        ground (arith, guard, finish_current_room s more h.capacity_fits h.ready) in
      rw same (
        refl,
        omega (arith, h.total),
        omega (arith, h.total),
        λ k hk.
            stored_done c xs s h (omega arith) more k
              (product_lt k (s.count + 1) c (omega (arith, h.total))),
      )
]
  where
    guard : (s.chunk_size ≡ c) × (0 < c) × (is_null s.values ≡ false)
    guard = (h.size, h.positive, not_null s.values (omega (arith, h.room, h.usable)))

-- If a state holds the bytes `xs`, its open block is not full and the values have a place for
-- every block, then finish returns 0, and the value of each block that starts within `xs`, the
-- short last one included, is the checksum of exactly that block's bytes.
pub finish-block :
    (c : ℕ) (xs : List ℕ) (s : Chunks) (k : ℕ)
    → Holds c xs s
    → s.chunk_bytes < c
    → length xs ≤ s.capacity * c
    → k * c < length xs
    → ((finish s).1 ≡ pos 0) × (get_or (finish s).0.values k 0 ≡ Reference.reference (block c xs k))
finish-block c xs s k h l r b = ((finish_lem c xs s h l r).0, (finish_lem c xs s h l r).3 k b)
