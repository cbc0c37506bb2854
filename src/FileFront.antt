-- ===== src/FileFront.antt =====
-- gba/sdk/src/file.c (with include/chislink/file.h): the table of backends, the choice of one by its prefix, and
-- the handles over them. The backends' callbacks are parameters: each passes a state `W` through, NULL is `none`.
pub mod Fitting
pub mod Choice
pub mod Handles
pub mod Opening
use chis_link.Common.{
  ℕ, zero, suc, ◌+◌, ◌-◌, ◌%◌, ◌^◌, List, [], ◌∷◌, Bool, true, false, not, ◌&&◌, ◌||◌, ltb, leb,
  ◌==◌, if◌then◌else◌, Option, none, some, length, get_or, set, replicate, ℤ, pos, neg, is_neg,
}

abbrev pub max_backends : ℕ
max_backends = 8

abbrev pub max_handles : ℕ
max_handles = 16

-- `cl_file_backend_ops_t`, the callbacks that the functions below use.
pub record Ops (W : Type 0) : Type 0 where
  pub open_file : Option (List ℕ → ℕ → W → W × ℤ × ℕ)
  pub close_file : Option (ℕ → W → W × ℤ)
  pub read_file : Option (ℕ → ℕ → W → W × ℤ × List ℕ)
  pub write_file : Option (ℕ → List ℕ → W → W × ℤ × ℕ)
  pub seek_file : Option (ℕ → ℕ → W → W × ℤ)
  pub truncate_file : Option (ℕ → ℕ → W → W × ℤ)
  pub flush_file : Option (ℕ → W → W × ℤ)

-- `cl_file_backend_t`; the prefix is the characters before its final zero.
pub record Backend (W : Type 0) : Type 0 where
  pub prefix : Option (List ℕ)
  pub prefix_length : ℕ
  pub ops : Option (Ops W)

-- The loop of `cstr_len_u8`, and the call.
abbrev pub cstr_len_u8 : Option (List ℕ) → ℕ
cstr_len_u8 none = 0
cstr_len_u8 (some s) = if ltb (length s) 255 then length s else 255

-- `cstr_starts_with`, of two strings without their final zeros.
unfoldable pub starts_with : ℕ → List ℕ → List ℕ → Bool
starts_with zero s p = true
starts_with (suc n) [] p = false
starts_with (suc n) (c ∷ s) [] = false
starts_with (suc n) (c ∷ s) (d ∷ p) = if not (c == d) then false else starts_with n s p

abbrev pub measured : {W : Type 0} → Backend W → ℕ
measured b = if not (b.prefix_length == 0) then b.prefix_length else cstr_len_u8 b.prefix

abbrev pub has_ops : {W : Type 0} → Backend W → Bool
has_ops b = elim b.ops [ none ↦ false | some o ↦ true ]

-- The guards of a round, and the test of the prefix.
unfoldable pub matches : {W : Type 0} → List ℕ → Backend W → Bool
matches path b = elim b.prefix [
  | none ↦ false
  | some p ↦ has_ops b && starts_with (measured b) path p
]

-- The loop of `find_backend`, with the best so far and its length.
unfoldable pub find_loop :
    {W : Type 0} → List ℕ → List (Option (Backend W)) → Option (Backend W) → ℕ → Option (Backend W)
find_loop path [] best best_len = best
find_loop path (none ∷ backends) best best_len = find_loop path backends best best_len
find_loop path (some b ∷ backends) best best_len =
    let taken = find_loop path backends (some b) (measured b) in
    let passed = find_loop path backends best best_len in
    if matches path b && leb best_len (measured b) then taken else passed

unfoldable pub find_backend : {W : Type 0} → List (Option (Backend W)) → List ℕ → Option (Backend W)
find_backend backends path = find_loop path backends none 0

-- `cl_file_slot_t`
pub record Slot (W : Type 0) : Type 0 where
  pub backend : Option (Backend W)
  pub local : ℕ
  pub offset : ℕ

abbrev pub free_slot : {W : Type 0} → Slot W
free_slot = record { backend = none; local = 0; offset = 0 }

-- `g_backends` and `g_slots`, with the state that the callbacks share.
pub record Files (W : Type 0) : Type 0 where
  pub backends : List (Option (Backend W))
  pub slots : List (Slot W)
  pub world : W

abbrev pub opens : {W : Type 0} → Backend W → Bool
opens b = elim b.ops [ none ↦ false | some o ↦ elim o.open_file [ none ↦ false | some f ↦ true ] ]

abbrev pub has_prefix : {W : Type 0} → Backend W → Bool
has_prefix b = elim b.prefix [ none ↦ false | some p ↦ true ]

-- The first free place of the table; `none` if there is none.
unfoldable pub add_backend :
    {W : Type 0} → List (Option (Backend W)) → Backend W → Option (List (Option (Backend W)))
add_backend [] b = none
add_backend (none ∷ backends) b = some (some b ∷ backends)
add_backend (some a ∷ backends) b = elim (add_backend backends b) [
  | none ↦ none
  | some rest ↦ some (some a ∷ rest)
]

unfoldable pub register_backend : {W : Type 0} → Files W → Backend W → Files W × ℤ
register_backend t b =
    if not (has_prefix b) || not (opens b) then (t, neg 1) else elim (add_backend t.backends b) [
      | none ↦ (t, neg 2)
      | some backends ↦ (record t { backends = backends }, pos 0)
    ]

abbrev pub cleared : {W : Type 0} → List (Slot W) → List (Slot W)
cleared [] = []
cleared (slot ∷ slots) = record slot { backend = none; local = 0 } ∷ cleared slots

unfoldable pub reset_backends : {W : Type 0} → Files W → Files W
reset_backends t = record t { backends = replicate max_backends none; slots = cleared t.slots }

-- `slot->backend ? slot : 0`
abbrev pub in_use : {W : Type 0} → Slot W → Option (Slot W)
in_use slot = elim slot.backend [ none ↦ none | some b ↦ some slot ]

unfoldable pub slot_from_handle : {W : Type 0} → Files W → ℕ → Option (Slot W)
slot_from_handle t file =
    let slot = get_or t.slots (file - 1) free_slot in
    if file == 0 || ltb max_handles file then none else in_use slot
