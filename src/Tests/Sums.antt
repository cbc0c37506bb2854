-- ===== src/Tests/Sums.antt =====
-- Concrete runs of the checksums' theorems.
use chis_link.Common.{
  ℕ, zero, suc, ◌<◌, ◌≡◌, ◌≢◌, refl, arith, List, [], ◌∷◌, ◌++◌, false, get_or, replicate,
  length-replicate, pos,
}
use chis_link.Crc32.{Globals, prepare_table, calculate}
use chis_link.Crc32.Reference
use chis_link.Crc32.Reference.{prepare_table-IsValid, calculate-reference, reference}
use chis_link.Crc32.Detect.{calculate_detects}
use chis_link.Crc32Chunks
use chis_link.Crc32Chunks.{Chunks}
use chis_link.Crc32Chunks.Blocks.{Holds, block}
use chis_link.Crc32Chunks.Stream.{Updated, update-Holds, finish-block}

-- The static variables at program start.
abbrev fresh : Globals
fresh = record { table = replicate 256 0; ready = false }

fresh-IsValid : Reference.IsValid fresh
fresh-IsValid = record {
  room = length-replicate {A = ℕ} 256 0;
  filled = λ e. absurd (ground arith);
}

abbrev digits : List ℕ
digits = 49 ∷ 50 ∷ 51 ∷ 52 ∷ []

calculate-reference_example : (calculate fresh digits).1 ≡ reference digits
calculate-reference_example = calculate-reference fresh digits fresh-IsValid (omega arith)

calculate_detects_example :
    (calculate fresh ((49 ∷ []) ++ (50 ∷ (51 ∷ [])))).1
    ≢ (calculate fresh ((49 ∷ []) ++ (54 ∷ (51 ∷ [])))).1
calculate_detects_example =
    calculate_detects fresh (49 ∷ []) (51 ∷ []) 50 54 fresh-IsValid (omega arith) (omega arith)
      (omega arith) (omega arith) (omega arith)

-- Blocks of two bytes, and nothing read yet.
abbrev start : Chunks
start = record {
  values = 0 ∷ 0 ∷ [];
  capacity = 2;
  count = 0;
  chunk_size = 2;
  chunk_bytes = 0;
  total_bytes = 0;
  current = 0xffffffff;
  globals = prepare_table fresh;
}

start-Holds : Holds 2 [] start
start-Holds = record {
  size = refl;
  positive = omega arith;
  narrow = omega arith;
  usable = omega arith;
  capacity_fits = omega arith;
  room = omega arith;
  total = omega arith;
  within = omega arith;
  done = λ k h. absurd (omega arith);
  open_block = unfold Reference.shift_bytes in refl;
  valid = (prepare_table-IsValid fresh fresh-IsValid).0;
  ready = (prepare_table-IsValid fresh fresh-IsValid).1;
}

update-Holds_example :
    Updated 2 2 ([] ++ (49 ∷ 50 ∷ 51 ∷ [])) (Crc32Chunks.update start (49 ∷ 50 ∷ 51 ∷ []))
update-Holds_example =
    update-Holds 2 [] (49 ∷ 50 ∷ 51 ∷ []) start start-Holds (omega arith) (omega arith)
      (omega arith)

-- Three bytes read: one block is done and one byte of the next is in.
abbrev three : List ℕ
three = 49 ∷ 50 ∷ 51 ∷ []

abbrev middle : Chunks
middle = record {
  values = reference (block 2 three 0) ∷ 0 ∷ [];
  capacity = 2;
  count = 1;
  chunk_size = 2;
  chunk_bytes = 1;
  total_bytes = 3;
  current = Reference.shift_bytes 0xffffffff (51 ∷ []);
  globals = prepare_table fresh;
}

middle_done : (k : ℕ) → k < 1 → get_or middle.values k 0 ≡ reference (block 2 three k)
middle_done zero h = refl
middle_done (suc k) h = absurd (omega arith)

middle-Holds : Holds 2 three middle
middle-Holds = record {
  size = refl;
  positive = omega arith;
  narrow = omega arith;
  usable = omega arith;
  capacity_fits = omega arith;
  room = omega arith;
  total = omega arith;
  within = omega arith;
  done = middle_done;
  open_block = refl;
  valid = (prepare_table-IsValid fresh fresh-IsValid).0;
  ready = (prepare_table-IsValid fresh fresh-IsValid).1;
}

finish-block_example :
    ((Crc32Chunks.finish middle).1 ≡ pos 0)
    × (get_or (Crc32Chunks.finish middle).0.values 1 0 ≡ reference (block 2 three 1))
finish-block_example =
    finish-block 2 three middle 1 middle-Holds (omega arith) (omega arith) (omega arith)
