-- ===== src/FileFront/Opening.antt =====
-- `cl_file_open`: the handle that a success gives.
use chis_link.Common.{
  ℕ, suc, ◌+◌, ◌-◌, ◌≤◌, ◌<◌, ◌≡◌, ◌≢◌, refl, sym, ap, ◌∙◌, arith, List, [], ◌∷◌, true, if_elim,
  Option, none, some, length, get_or, set, get_or-set_self, get_or-set_ne, u16, ltb, ◌||◌, ◌==◌, ℤ,
  pos, is_neg, neg,
}
use mathlib.Core.Path.{subst}
use chis_link.FileFront.{
  Ops, Backend, Slot, Files, free_slot, in_use, max_handles, slot_from_handle, find_backend,
}
use chis_link.FileFront.Handles.{first_free, open_slot, open_with, open_path, position, tell}

-- A free slot that the search finds, which starts at index `i`.
abbrev IsFree : {W : Type 0} → List (Slot W) → ℕ → Option ℕ → Type 0
IsFree slots i none = Unit {0}
IsFree slots i (some k) =
    (i ≤ k) × (k < i + length slots) × ((get_or slots (k - i) free_slot).backend ≡ none)

first_free-IsFree :
    {W : Type 0} (slots : List (Slot W)) (i : ℕ) → IsFree slots i (first_free slots i)
unfolding first_free
first_free-IsFree [] i = tt
first_free-IsFree {W = W} (slot ∷ slots) i =
    by_backend (first_free-IsFree slots (i + 1)) slot.backend refl
  where
    first : (j : ℕ) → j ≡ 0 → get_or (slot ∷ slots) j free_slot ≡ slot
    first j e = ap (λ k. get_or (slot ∷ slots) k free_slot) e

    later : (r : Option ℕ) → IsFree slots (i + 1) r → IsFree (slot ∷ slots) i r
    later none h = tt
    later (some k) (lo, hi, free) = (
      omega arith,
      omega arith,
      ap (λ j. (get_or (slot ∷ slots) j free_slot).backend) (next k lo) ∙ free,
    )
      where
        next : (k : ℕ) → i + 1 ≤ k → k - i ≡ suc (k - (i + 1))
        next k lo = omega arith

    by_backend :
        IsFree slots (i + 1) (first_free slots (i + 1))
        → (b : Option (Backend W)) → slot.backend ≡ b
        → IsFree (slot ∷ slots) i (elim b [ none ↦ some i | some c ↦ first_free slots (i + 1) ])
    by_backend ih none e =
        (omega arith, omega arith, ap (λ s. s.backend) (first (i - i) (omega arith)) ∙ e)
    by_backend ih (some c) e = later (first_free slots (i + 1)) ih

-- An opening gives a handle that named no file before and now names one at position 0, and leaves the other
-- slots; or it fails, and leaves all of them.
abbrev pub Opens : {W : Type 0} → Files W → Files W × ℤ × Option ℕ → Type 0
Opens t (t', ret, none) = (is_neg ret ≡ true) × (t'.slots ≡ t.slots)
Opens t (t', ret, some file) =
    (ret ≡ pos 0)
    × (1 ≤ file)
    × (file ≤ 16)
    × (slot_from_handle t file ≡ none)
    × (tell t' file ≡ some 0)
    × ((other : ℕ)
        → other ≢ file - 1
        → get_or t'.slots other free_slot ≡ get_or t.slots other free_slot)

module _ {W : Type 0} (t : Files W) (table : length t.slots ≡ 16) (path : List ℕ) (flags : ℕ) where
  back : (k : ℕ) → k + 1 - 1 ≡ k
  back k = omega arith

  unused : (slot : Slot W) → slot.backend ≡ none → in_use slot ≡ none
  unused slot e =
      ap
        (λ (o : Option (Backend W)). elim o as (λ _. Option (Slot W)) [
          | none ↦ none
          | some b ↦ some slot
        ])
        e

  free_refused :
      (k : ℕ)
      → k < 16
      → (get_or t.slots k free_slot).backend ≡ none
      → slot_from_handle t (k + 1) ≡ none
  unfolding slot_from_handle
  free_refused k h e =
      if_elim (λ (o : Option (Slot W)). o ≡ none) (k + 1 == 0 || ltb max_handles (k + 1)) none
        (in_use (get_or t.slots (k + 1 - 1) free_slot)) (λ _. refl)
        (λ _.
          unused (get_or t.slots (k + 1 - 1) free_slot)
            (ap (λ j. (get_or t.slots j free_slot).backend) (back k) ∙ e))

  new_told :
      (k : ℕ) (b : Backend W) (local : ℕ) (world : W)
      → k < 16
      → tell
          (record t {
            slots = set t.slots k (record { backend = some b; local = local; offset = 0 });
            world = world;
          })
          (k + 1)
        ≡ some 0
  unfolding tell slot_from_handle
  new_told k b local world h =
      let new : Slot W = record { backend = some b; local = local; offset = 0 } in
      let at : get_or (set t.slots k new) (k + 1 - 1) free_slot ≡ new =
        ap (λ j. get_or (set t.slots k new) j free_slot) (back k)
        ∙ get_or-set_self t.slots k new free_slot (omega (arith, table)) in
      if_elim (λ (o : Option (Slot W)). position o ≡ some 0) (k + 1 == 0 || ltb max_handles (k + 1))
        none (in_use (get_or (set t.slots k new) (k + 1 - 1) free_slot))
        (λ e. absurd (ground (arith, e, h))) (λ _. ap (λ (x : Slot W). position (in_use x)) at)

  open_slot-Opens :
      (b : Backend W) (f : List ℕ → ℕ → W → W × ℤ × ℕ) (k : Option ℕ)
      → IsFree t.slots 0 k
      → Opens t (open_slot t b f path flags k)
  unfolding open_slot
  open_slot-Opens b f none h = (refl, refl)
  open_slot-Opens b f (some k) (lo, hi, free) =
      let (world, ret, local) = f path flags t.world in
      let inside : k < 16 = omega (arith, table) in
      let same : u16 (k + 1) ≡ k + 1 = omega arith in
      let free' : (get_or t.slots k free_slot).backend ≡ none =
        ap (λ j. (get_or t.slots j free_slot).backend) (omega arith) ∙ free in
      let new : Slot W = record { backend = some b; local = local; offset = 0 } in
      let t' = record t { slots = set t.slots k new; world = world } in
      if_elim (Opens t) (is_neg ret) _ _ (λ e. (e, refl))
        (λ _.
          subst (λ file. Opens t (t', pos 0, some file)) (sym same)
            (
              refl,
              omega arith,
              omega arith,
              free_refused k inside free',
              new_told k b local world inside,
              λ other ne. get_or-set_ne t.slots new free_slot (λ e. ne (sym e ∙ sym (back k))),
            ))

  open_with-Opens : (b : Option (Backend W)) → Opens t (open_with t b path flags)
  unfolding open_with
  open_with-Opens none = (refl, refl)
  open_with-Opens (some b) = by_ops b.ops
    where
      by_callback :
          (f : Option (List ℕ → ℕ → W → W × ℤ × ℕ))
          → Opens t (elim f [
            | none ↦ (t, neg 2, none)
            | some f ↦ open_slot t b f path flags (first_free t.slots 0)
          ])
      by_callback none = (refl, refl)
      by_callback (some f) =
          open_slot-Opens b f (first_free t.slots 0) (first_free-IsFree t.slots 0)

      by_ops :
          (o : Option (Ops W))
          → Opens t (elim o [
            | none ↦ (t, neg 2, none)
            | some o ↦ elim o.open_file [
              | none ↦ (t, neg 2, none)
              | some f ↦ open_slot t b f path flags (first_free t.slots 0)
            ]
          ])
      by_ops none = (refl, refl)
      by_ops (some o) = by_callback o.open_file

-- With a table of sixteen slots, opening a path gives 0 and a handle from 1 to 16 that named no
-- file before and now names one at position 0, no other slot changed; or it fails with a negative
-- result, gives no handle and leaves the slots as they were.
pub open_path-Opens :
    {W : Type 0} (t : Files W) (path : Option (List ℕ)) (flags : ℕ)
    → length t.slots ≡ 16
    → Opens t (open_path t path flags)
unfolding open_path
open_path-Opens t none flags table = (refl, refl)
open_path-Opens t (some path) flags table =
    open_with-Opens t table path flags (find_backend t.backends path)
