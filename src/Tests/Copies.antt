-- ===== src/Tests/Copies.antt =====
-- Concrete runs of the theorems on copying.
use chis_link.Common.{
  ℕ, ◌≤◌, ◌≡◌, refl, sym, ap, ◌∙◌, arith, inl, inr, List, [], ◌∷◌, ◌++◌, true, false, ltb,
  if◌then◌else◌, none, some, length, length-drop, length-append, length-take, take-append_length,
  take, drop, ℤ, pos, neg, is_neg,
}
use chis_link.Copy.{Source, Sink, Options, choose_block_size, limit, copy_stream}
use chis_link.Copy.Laws.{Reads, Writes, IsFair}
use chis_link.Copy.Whole.{copy_stream_whole, copy_stream_short}

-- What the source has left, and what the sink has.
abbrev Both : Type 0
Both = List ℕ × List ℕ

abbrev left : Both → List ℕ
left w = w.0

abbrev taken : Both → List ℕ
taken w = w.1

abbrev least : ℕ → ℕ → ℕ
least a b = if ltb a b then a else b

abbrev read_some : List ℕ → ℕ → Both → Both × ℤ × List ℕ × ℕ
read_some buffer n w =
    let k = least n (length w.0) in ((drop k w.0, w.1), pos 0, take k w.0 ++ drop k buffer, k)

abbrev write_all : List ℕ → ℕ → Both → Both × ℤ × ℕ
write_all bytes n w = ((w.0, w.1 ++ take n bytes), pos 0, n)

abbrev source : ℕ → Source Both
source size = record {
  read = some read_some;
  direct_read = none;
  release_direct = none;
  size = size;
  preferred_block_size = 0;
  max_block_size = 4;
}

abbrev sink : Sink Both
sink = record {
  write = some write_all;
  direct_write = none;
  flush = none;
  preferred_block_size = 0;
  max_block_size = 0;
}

abbrev buffer : List ℕ
buffer = 0 ∷ 0 ∷ 0 ∷ 0 ∷ 0 ∷ []

abbrev options : Options Both
options = record {
  buffer = some buffer;
  buffer_size = 5;
  block_size = 0;
  progress = none;
  flush_on_finish = true;
}

reads : Reads left taken (some read_some)
reads buffer n w h1 h2 =
    let k = least n (length w.0) in
    let small : k ≤ n = ground arith in
    let there : k ≤ length w.0 = ground arith in
    let taken_length : length (take k w.0) ≡ k = omega (arith, length-take k w.0, there) in
    (
      refl,
      small,
      λ e. at_end w.0 (ground (arith, e)),
      omega (
        arith,
        length-append (take k w.0) (drop k buffer),
        length-drop k buffer,
        taken_length,
        small,
        h2,
      ),
      ap (λ i. take i (take k w.0 ++ drop k buffer)) (sym taken_length)
          ∙ take-append_length (take k w.0) (drop k buffer),
      there,
      refl,
      refl,
    )
  where
    at_end : (xs : List ℕ) → length xs ≡ 0 → xs ≡ []
    at_end [] e = refl
    at_end (x ∷ xs) e = absurd (omega arith)

writes : Writes left taken (some write_all)
writes bytes n w h1 h2 = (refl, h1, omega arith, refl, refl)

fair : (size : ℕ) → IsFair left taken (source size) sink options
fair size = record {
  can_read = refl;
  can_write = refl;
  reads = reads;
  shows = tt;
  releases = tt;
  writes = writes;
  writes_window = tt;
  whole = inl refl;
  flushes = tt;
  reports = tt;
}

abbrev six : List ℕ
six = 1 ∷ 2 ∷ 3 ∷ 4 ∷ 5 ∷ 6 ∷ []

block_size_lem : (size : ℕ) → choose_block_size (source size) sink options ≡ 4
unfolding choose_block_size limit
block_size_lem size = refl

copy_stream_whole_example :
    (w' : Both) × (ret : ℤ) × (copy_stream 7 (source 6) sink options (six, []) ≡ some (w', ret))
    × (is_neg ret ≡ false)
    × (w'.0 ≡ [])
    × (w'.1 ≡ six)
copy_stream_whole_example =
    copy_stream_whole left taken (source 6) sink options 7 buffer (six, []) (fair 6) refl refl
      (omega arith) (omega (arith, block_size_lem 6)) (inr refl) (omega arith) (omega arith)

copy_stream_short_example :
    (w' : Both) × (copy_stream 7 (source 8) sink options (six, []) ≡ some (w', neg 6))
    × (w'.0 ≡ [])
    × (w'.1 ≡ six)
copy_stream_short_example =
    copy_stream_short left taken (source 8) sink options 7 buffer (six, []) (fair 8) refl refl
      (omega arith) (omega (arith, block_size_lem 8)) (omega arith) (omega arith) (omega arith)
