-- ===== src/FileFront/Handles.antt =====
-- gba/sdk/src/file.c: opening, closing and using a file through its handle.
use chis_link.Common.{
  ℕ, ◌+◌, ◌-◌, ◌%◌, ◌^◌, List, [], ◌∷◌, Bool, false, ◌==◌, if◌then◌else◌, Option, none, some,
  length, set, u16, ℤ, pos, negsuc, neg, is_neg,
}
use chis_link.FileFront.{Ops, Backend, Slot, Files, find_backend, slot_from_handle}

-- `ret == 0`
abbrev pub is_ok : ℤ → Bool
is_ok ret = elim ret [ pos n ↦ n == 0 | negsuc n ↦ false ]

abbrev pub ops_of : {W : Type 0} → Slot W → Option (Ops W)
ops_of slot = elim slot.backend [ none ↦ none | some b ↦ b.ops ]

-- The loop of `cl_file_open` up to the first free slot, counted from `i`.
unfoldable pub first_free : {W : Type 0} → List (Slot W) → ℕ → Option ℕ
first_free [] i = none
first_free (slot ∷ slots) i = elim slot.backend [
  | none ↦ some i
  | some b ↦ first_free slots (i + 1)
]

-- `cl_file_open` once the backend is chosen; `*out_file` where it is set.
unfoldable pub open_slot :
    {W : Type 0}
    → Files W
    → Backend W
    → (List ℕ → ℕ → W → W × ℤ × ℕ)
    → List ℕ
    → ℕ
    → Option ℕ
    → Files W × ℤ × Option ℕ
open_slot t b open_file path flags none = (t, neg 3, none)
open_slot t b open_file path flags (some i) =
    let (world, ret, local) = open_file path flags t.world in
    if is_neg ret then (record t { world = world }, ret, none) else (
      record t {
        slots = set t.slots i (record { backend = some b; local = local; offset = 0 });
        world = world;
      },
      pos 0,
      some (u16 (i + 1)),
    )

unfoldable pub open_with :
    {W : Type 0} → Files W → Option (Backend W) → List ℕ → ℕ → Files W × ℤ × Option ℕ
open_with t none path flags = (t, neg 2, none)
open_with t (some b) path flags = elim b.ops [
  | none ↦ (t, neg 2, none)
  | some o ↦ elim o.open_file [
    | none ↦ (t, neg 2, none)
    | some f ↦ open_slot t b f path flags (first_free t.slots 0)
  ]
]

-- A NULL path is `none`.
unfoldable pub open_path : {W : Type 0} → Files W → Option (List ℕ) → ℕ → Files W × ℤ × Option ℕ
open_path t none flags = (t, neg 1, none)
open_path t (some path) flags = open_with t (find_backend t.backends path) path flags

abbrev pub put_slot : {W : Type 0} → Files W → ℕ → Slot W → W → Files W
put_slot t file slot world = record t { slots = set t.slots (file - 1) slot; world = world }

-- A callback that may be missing.
abbrev pub call_on : {W : Type 0} → Option (ℕ → W → W × ℤ) → ℕ → ℤ → W → W × ℤ
call_on none local missing w = (w, missing)
call_on (some callback) local missing w = callback local w

unfoldable pub close_file : {W : Type 0} → Files W → ℕ → Files W × ℤ
close_file t file = elim (slot_from_handle t file) [
  | none ↦ (t, neg 1)
  | some slot ↦
      let (world, ret) =
        call_on (elim (ops_of slot) [ none ↦ none | some o ↦ o.close_file ]) slot.local (pos 0)
          t.world in
      (put_slot t file (record slot { backend = none; local = 0 }) world, ret)
]

-- How `cl_file_seek` goes on with its callback; the second argument is the slot.
unfoldable pub seek_slot :
    {W : Type 0} → Files W → Slot W → ℕ → ℕ → Option (ℕ → ℕ → W → W × ℤ) → Files W × ℤ
seek_slot t slot file offset none = (t, neg 1)
seek_slot t slot file offset (some seek) =
    let (world, ret) = seek slot.local offset t.world in
    (put_slot t file (if is_ok ret then record slot { offset = offset } else slot) world, ret)

unfoldable pub seek_file : {W : Type 0} → Files W → ℕ → ℕ → Files W × ℤ
seek_file t file offset = elim (slot_from_handle t file) [
  | none ↦ (t, neg 1)
  | some slot ↦
      seek_slot t slot file offset (elim (ops_of slot) [ none ↦ none | some o ↦ o.seek_file ])
]

-- The bytes that a read gives; the position is a 64-bit number.
unfoldable pub read_slot :
    {W : Type 0}
    → Files W
    → Slot W
    → ℕ
    → ℕ
    → Option (ℕ → ℕ → W → W × ℤ × List ℕ)
    → Files W × ℤ × List ℕ
read_slot t slot file n none = (t, neg 1, [])
read_slot t slot file n (some read) =
    let (world, ret, bytes) = read slot.local n t.world in
    (
      put_slot t file
          (if is_ok ret
            then record slot { offset = (slot.offset + length bytes) % 2 ^ 64 }
            else slot)
          world,
      ret,
      bytes,
    )

unfoldable pub read_file : {W : Type 0} → Files W → ℕ → ℕ → Files W × ℤ × List ℕ
read_file t file n = elim (slot_from_handle t file) [
  | none ↦ (t, neg 1, [])
  | some slot ↦ read_slot t slot file n (elim (ops_of slot) [ none ↦ none | some o ↦ o.read_file ])
]

unfoldable pub write_slot :
    {W : Type 0}
    → Files W
    → Slot W
    → ℕ
    → List ℕ
    → Option (ℕ → List ℕ → W → W × ℤ × ℕ)
    → Files W × ℤ × ℕ
write_slot t slot file bytes none = (t, neg 1, 0)
write_slot t slot file bytes (some write) =
    let (world, ret, n) = write slot.local bytes t.world in
    (
      put_slot t file
          (if is_ok ret then record slot { offset = (slot.offset + n) % 2 ^ 64 } else slot) world,
      ret,
      n,
    )

unfoldable pub write_file : {W : Type 0} → Files W → ℕ → List ℕ → Files W × ℤ × ℕ
write_file t file bytes = elim (slot_from_handle t file) [
  | none ↦ (t, neg 1, 0)
  | some slot ↦
      write_slot t slot file bytes (elim (ops_of slot) [ none ↦ none | some o ↦ o.write_file ])
]

abbrev pub position : {W : Type 0} → Option (Slot W) → Option ℕ
position none = none
position (some slot) = some slot.offset

-- `cl_file_tell`; `none` is its failure.
unfoldable pub tell : {W : Type 0} → Files W → ℕ → Option ℕ
tell t file = position (slot_from_handle t file)

unfoldable pub truncate_file : {W : Type 0} → Files W → ℕ → ℕ → Files W × ℤ
truncate_file t file size = elim (slot_from_handle t file) [
  | none ↦ (t, pos 0)
  | some slot ↦ elim (ops_of slot) [
    | none ↦ (t, pos 0)
    | some o ↦ elim o.truncate_file [
      | none ↦ (t, pos 0)
      | some f ↦ let (world, ret) = f slot.local size t.world in (record t { world = world }, ret)
    ]
  ]
]

unfoldable pub flush_file : {W : Type 0} → Files W → ℕ → Files W × ℤ
flush_file t file = elim (slot_from_handle t file) [
  | none ↦ (t, pos 0)
  | some slot ↦
      let (world, ret) =
        call_on (elim (ops_of slot) [ none ↦ none | some o ↦ o.flush_file ]) slot.local (pos 0)
          t.world in
      (record t { world = world }, ret)
]
