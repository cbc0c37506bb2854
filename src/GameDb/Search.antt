-- ===== src/GameDb/Search.antt =====
-- The binary search of gamedb.c on a sorted table.
use chis_link.Common.{
  ℕ, zero, suc, ◌+◌, ◌-◌, ◌*◌, ◌/◌, ◌≤◌, ◌<◌, ◌≡◌, ◌≢◌, refl, sym, ap, ◌∙◌, arith, List, All,
  All-drop, ℤ, IsByte, IsU32, u32, ◌>>>◌, ◌⊎◌, inl, inr, neg,
}
use native.Mathlib.Decide.{dec_lt}
use mathlib.Core.Path.{subst}
use chis_link.Common.Products.{product_lt}
use chis_link.GameDb.{
  Sign, less, equal, greater, SaveInfo, sized, record_size, decode_record, record_at, no_save,
  search_loop, search_sized, search_records, memcmp,
}
use chis_link.GameDb.Order.{code_value, sign, memcmp_value}

-- A table of `count` entries that 32-bit offsets reach.
abbrev pub IsTable : List ℕ → ℕ → ℕ → Type 0
IsTable records size count = All IsByte records × IsU32 (count * size) × (5 ≤ size)

-- The entries are in strictly increasing order of their codes.
abbrev pub IsSorted : List ℕ → ℕ → ℕ → Type 0
IsSorted records size count =
    (i j : ℕ)
    → i < j
    → j < count
    → code_value (record_at records size i) < code_value (record_at records size j)

module _ (records : List ℕ) (size count : ℕ) (game_code : List ℕ) (info : SaveInfo) where
  code_at : ℕ → ℕ
  code_at i = code_value (record_at records size i)

  abbrev middle : ℕ → ℕ → ℕ
  middle left right = u32 (left + ((right - left) >>> 1))

  middle_bounds :
      (left right : ℕ)
      → left < right
      → right ≤ count
      → IsU32 count
      → (left ≤ middle left right)
        × (middle left right < right)
        × (u32 (middle left right + 1) ≡ middle left right + 1)
  middle_bounds left right h hr hc = omega arith

  trichotomy : (a b : ℕ) → (a < b) ⊎ ((a ≡ b) ⊎ (b < a))
  trichotomy a b = omega arith

  count_small : IsTable records size count → IsU32 count
  count_small h = product_lt count 4294967296 size (omega (arith, h.1, h.2))

  -- One round of the loop, by what the comparison says.
  compared : ℕ → ℕ → Sign
  compared left right = memcmp (record_at records size (middle left right)) game_code 4

  loop : ℕ → ℕ → ℕ → ℤ × SaveInfo
  loop fuel left right = search_loop fuel records size game_code info left right

  step_done : (fuel left right : ℕ) → right ≤ left → loop fuel left right ≡ (neg 3, info)
  unfolding loop search_loop
  step_done zero left right h = refl
  step_done (suc fuel) left right h = ground arith

  step_equal :
      (fuel left right : ℕ)
      → left < right
      → compared left right ≡ equal
      → loop (suc fuel) left right
        ≡ decode_record (record_at records size (middle left right)) size info
  unfolding loop search_loop compared
  step_equal fuel left right h e = rw e (ground arith)

  step_less :
      (fuel left right : ℕ)
      → left < right
      → compared left right ≡ less
      → loop (suc fuel) left right ≡ loop fuel (u32 (middle left right + 1)) right
  unfolding loop search_loop compared
  step_less fuel left right h e = rw e (ground arith)

  step_greater :
      (fuel left right : ℕ)
      → left < right
      → compared left right ≡ greater
      → loop (suc fuel) left right ≡ loop fuel left (middle left right)
  unfolding loop search_loop compared
  step_greater fuel left right h e = rw e (ground arith)

  compared_value :
      (left right : ℕ)
      → All IsByte records
      → All IsByte game_code
      → compared left right ≡ sign (code_at (middle left right)) (code_value game_code)
  unfolding compared code_at
  compared_value left right hr hg =
      memcmp_value (record_at records size (middle left right)) game_code
        (All-drop IsByte (u32 (middle left right * size)) records hr) hg

  sign_less : (a b : ℕ) → a < b → sign a b ≡ less
  sign_less a b h = ground arith

  sign_greater : (a b : ℕ) → b < a → sign a b ≡ greater
  sign_greater a b h = ground arith

  sign_equal : (a b : ℕ) → a ≡ b → sign a b ≡ equal
  sign_equal a b h = ground arith

  -- The loop ends at the entry `i` if it lies in the range and carries the code.
  loop_found :
      (fuel left right i : ℕ)
      → IsTable records size count
      → IsSorted records size count
      → All IsByte game_code
      → left ≤ i
      → i < right
      → right ≤ count
      → right ≤ left + fuel
      → code_at i ≡ code_value game_code
      → loop fuel left right ≡ decode_record (record_at records size i) size info
  unfolding code_at
  loop_found zero left right i ht hs hg h1 h2 h3 h4 e = absurd (omega arith)
  loop_found (suc fuel) left right i ht hs hg h1 h2 h3 h4 e =
      elim (trichotomy (middle left right) i) [
        | inl below ↦
            step_less fuel left right h (
              compared_value left right ht.0 hg
              ∙ sign_less (code_at m) (code_value game_code) (omega (arith, hs m i below, e)))
            ∙ ap (λ k. loop fuel k right) bounds.2
            ∙ loop_found fuel (m + 1) right i ht hs hg (omega arith) h2 h3 (omega (arith, bounds)) e
        | inr (inl here) ↦
            step_equal fuel left right h (
              compared_value left right ht.0 hg
              ∙ sign_equal (code_at m) (code_value game_code) (ap code_at here ∙ e))
            ∙ ap (λ k. decode_record (record_at records size k) size info) here
        | inr (inr above) ↦
            step_greater fuel left right h (
              compared_value left right ht.0 hg
              ∙ sign_greater (code_at m) (code_value game_code)
                  (omega (arith, hs i m above, bounds, e)))
            ∙ loop_found fuel left m i ht hs hg h1 above (omega (arith, bounds))
                (omega (arith, bounds)) e
      ]
    where
      m : ℕ
      m = middle left right

      h : left < right
      h = omega arith

      bounds : (left ≤ m) × (m < right) × (u32 (m + 1) ≡ m + 1)
      bounds = middle_bounds left right h h3 (count_small ht)

  -- The loop ends with -3 if no entry of the range carries the code.
  loop_missing :
      (fuel left right : ℕ)
      → IsTable records size count
      → All IsByte game_code
      → right ≤ count
      → right ≤ left + fuel
      → ((i : ℕ) → i < count → code_at i ≢ code_value game_code)
      → loop fuel left right ≡ (neg 3, info)
  loop_missing zero left right ht hg h3 h4 none_equal = step_done 0 left right (omega arith)
  loop_missing (suc fuel) left right ht hg h3 h4 none_equal = elim (dec_lt left right) [
    | no done ↦ step_done (suc fuel) left right (omega arith)
    | yes h ↦
        let bounds = middle_bounds left right h h3 (count_small ht) in
        elim (trichotomy (code_at (middle left right)) (code_value game_code)) [
          | inl below ↦
              step_less fuel left right h (
                compared_value left right ht.0 hg
                ∙ sign_less (code_at (middle left right)) (code_value game_code) below)
              ∙ ap (λ k. loop fuel k right) bounds.2
              ∙ loop_missing fuel (middle left right + 1) right ht hg h3 (omega (arith, bounds))
                  none_equal
          | inr (inl here) ↦ absurd (none_equal (middle left right) (omega (arith, bounds)) here)
          | inr (inr above) ↦
              step_greater fuel left right h (
                compared_value left right ht.0 hg
                ∙ sign_greater (code_at (middle left right)) (code_value game_code) above)
              ∙ loop_missing fuel left (middle left right) ht hg (omega (arith, bounds))
                  (omega (arith, bounds)) none_equal
        ]
  ]

table :
    (records : List ℕ) (file_size size : ℕ)
    → record_size file_size ≡ sized size
    → IsU32 file_size
    → All IsByte records
    → IsTable records size (file_size / size)
unfolding record_size
table records file_size size e hf hr =
    (hr, fits size (five_or_nine e), omega (arith, five_or_nine e))
  where
    five_or_nine : record_size file_size ≡ sized size → (size ≡ 5) ⊎ (size ≡ 9)
    five_or_nine e = ground arith

    fits : (s : ℕ) → (s ≡ 5) ⊎ (s ≡ 9) → IsU32 (file_size / s * s)
    fits s (inl p) = subst (λ k. IsU32 (file_size / k * k)) (sym p) (omega arith)
    fits s (inr p) = subst (λ k. IsU32 (file_size / k * k)) (sym p) (omega arith)

-- On a table of bytes of a known record size and a 32-bit file size, whose entries are in strictly
-- increasing order of their codes, the search ends with the decoded entry that carries the game
-- code, for every entry.
pub search_records-found :
    (records game_code : List ℕ) (file_size size i : ℕ)
    → record_size file_size ≡ sized size
    → IsU32 file_size
    → All IsByte records
    → All IsByte game_code
    → IsSorted records size (file_size / size)
    → i < file_size / size
    → code_value (record_at records size i) ≡ code_value game_code
    → search_records records file_size game_code
      ≡ decode_record (record_at records size i) size no_save
unfolding search_records
search_records-found records game_code file_size size i e hf hr hg hs hi hc =
    ap (search_sized records file_size game_code) e
    ∙ (unfold loop code_at in
        loop_found records size (file_size / size) game_code no_save (file_size / size + 1) 0
          (file_size / size) i (table records file_size size e hf hr) hs hg (omega arith) hi
          (omega arith) (omega arith) hc)

-- On any table of bytes of a known record size and a 32-bit file size, sorted or not, the search
-- ends with -3 and no save type if no entry carries the code.
pub search_records-missing :
    (records game_code : List ℕ) (file_size size : ℕ)
    → record_size file_size ≡ sized size
    → IsU32 file_size
    → All IsByte records
    → All IsByte game_code
    → ((i : ℕ)
        → i < file_size / size
        → code_value (record_at records size i) ≢ code_value game_code)
    → search_records records file_size game_code ≡ (neg 3, no_save)
unfolding search_records
search_records-missing records game_code file_size size e hf hr hg none_equal =
    ap (search_sized records file_size game_code) e
    ∙ (unfold loop code_at in
        loop_missing records size (file_size / size) game_code no_save (file_size / size + 1) 0
          (file_size / size) (table records file_size size e hf hr) hg (omega arith) (omega arith)
          none_equal)
