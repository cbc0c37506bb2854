-- ===== src/CartFile/Handles.antt =====
-- The handles of cart_file.c: which are live after opening, closing and a change of the driver.
use chis_link.Common.{
  ℕ, zero, suc, ◌+◌, ◌-◌, ◌≤◌, ◌<◌, ◌≡◌, refl, sym, ap, ◌∙◌, arith, List, [], ◌∷◌, Bool, true,
  false, not, ◌&&◌, if◌then◌else◌, Option, none, some, get_or, set, length, Option-cases,
  get_or-set_self, ℤ, pos, neg, is_neg, inl, inr,
}
use chis_link.CartFile.{Kind, Driver, Slot, Cart, max_handles, has_flag, open_write, is_info}
use mathlib.Core.Path.{subst}
use chis_link.CartFile.Open.{
  kind_from_path, refusal, slot_from_local, closed_slot, close_slots, set_driver, opened, open_slot,
  open_kind, open_path, close, ensure_info,
}

abbrev pub IsCart : {W : Type 0} → Cart W → Type 0
IsCart cart = length cart.slots ≡ max_handles

-- What opening does to the table: a slot that was closed now holds the file, and nothing else changed.
abbrev pub IsFresh : List Slot → Kind → ℕ → List Slot × ℕ → Type 0
IsFresh slots kind flags (slots', local) =
    (1 ≤ local)
    × (local ≤ max_handles)
    × (slot_from_local slots local ≡ none)
    × (slots' ≡ set slots (local - 1) (opened kind flags))
    × (slot_from_local slots' local ≡ some (opened kind flags))

abbrev Opens : List Slot → Kind → ℕ → Option (List Slot × ℕ) → Type 0
Opens slots kind flags none = Unit {0}
Opens slots kind flags (some r) = IsFresh slots kind flags r

fresh :
    (i : ℕ) (slots : List Slot) (kind : Kind) (flags : ℕ)
    → length slots ≡ max_handles
    → i < max_handles
    → (get_or slots i closed_slot).is_open ≡ false
    → IsFresh slots kind flags (set slots i (opened kind flags), i + 1)
fresh i slots kind flags h hi e =
    (omega arith, omega arith, was_closed, ap (λ k. set slots k (opened kind flags)) back, now_open)
  where
    back : i ≡ i + 1 - 1
    back = omega arith

    was_closed : slot_from_local slots (i + 1) ≡ none
    was_closed = unfold slot_from_local in rw⁻¹ back (ground (arith, e))

    now_open : slot_from_local (set slots i (opened kind flags)) (i + 1) ≡ some (opened kind flags)
    now_open =
        unfold slot_from_local in
        rw⁻¹ back (
          rw (get_or-set_self slots i (opened kind flags) closed_slot (omega arith)) (ground arith))

open_slot-Opens :
    (left i : ℕ) (slots : List Slot) (kind : Kind) (flags : ℕ)
    → length slots ≡ max_handles
    → i + left ≤ max_handles
    → Opens slots kind flags (open_slot left i slots kind flags)
unfolding open_slot
open_slot-Opens zero i slots kind flags h hi = tt
open_slot-Opens (suc left) i slots kind flags h hi =
    choose (get_or slots i closed_slot).is_open (fresh i slots kind flags h (omega arith))
      (open_slot-Opens left (i + 1) slots kind flags h (omega arith))
  where
    choose :
        (b : Bool)
        → (b ≡ false → IsFresh slots kind flags (set slots i (opened kind flags), i + 1))
        → Opens slots kind flags (open_slot left (i + 1) slots kind flags)
        → Opens slots kind flags (
            if not b
            then some (set slots i (opened kind flags), i + 1)
            else open_slot left (i + 1) slots kind flags)
    choose true f rest = rest
    choose false f rest = f refl

left_closed :
    (slots : List Slot) (local : ℕ) (slot : Slot)
    → slot.is_open ≡ false
    → length slots ≡ max_handles
    → slot_from_local (set slots (local - 1) slot) local ≡ none
unfolding slot_from_local
left_closed slots local slot e h =
    ground (arith, get_or-set_self slots (local - 1) slot closed_slot)

-- With a table of four slots, a handle names no slot after it was closed.
pub close-dead :
    {W : Type 0} (cart : Cart W) (local : ℕ)
    → IsCart cart
    → slot_from_local (close cart local).0.slots local ≡ none
unfolding close
close-dead cart local h = elim (Option-cases (slot_from_local cart.slots local)) [
  | inl e ↦ rw (e, close) e
  | inr (slot, e) ↦ rw (e, close) (left_closed cart.slots local _ refl h)
]

all_closed :
    (slots : List Slot) (i : ℕ) → (get_or (close_slots slots) i closed_slot).is_open ≡ false
all_closed [] i = refl
all_closed (slot ∷ slots) zero = refl
all_closed (slot ∷ slots) (suc i) = all_closed slots i

-- Installing or removing a driver closes every handle.
pub set_driver-dead :
    {W : Type 0} (cart : Cart W) (driver : Option (Driver W)) (local : ℕ)
    → slot_from_local (set_driver cart driver).slots local ≡ none
unfolding set_driver slot_from_local
set_driver-dead cart none local = rw (all_closed cart.slots (local - 1)) (ground arith)
set_driver-dead cart (some driver) local = rw (all_closed cart.slots (local - 1)) (ground arith)

-- What an opening may end with: a failure that leaves the table as it was, or a fresh handle.
abbrev pub Outcome : {W : Type 0} → List Slot → Kind → ℕ → Cart W × ℤ × Option ℕ → Type 0
Outcome slots kind flags (cart, result, none) = (is_neg result ≡ true) × (cart.slots ≡ slots)
Outcome slots kind flags (cart, result, some local) =
    (result ≡ pos 0) × IsFresh slots kind flags (cart.slots, local)

taken :
    {W : Type 0} (cart : Cart W) (kind : Kind) (flags : ℕ) (r : Option (List Slot × ℕ))
    → Opens cart.slots kind flags r
    → Outcome {W = W} cart.slots kind flags (elim r [
      | none ↦ (cart, neg 7, none)
      | some (slots, local) ↦ (record cart { slots = slots }, pos 0, some local)
    ])
taken cart kind flags none o = (refl, refl)
taken cart kind flags (some (slots, local)) o = (refl, o)

if-Outcome :
    {W : Type 0} (slots : List Slot) (kind : Kind) (flags : ℕ) (b : Bool)
    (x y : Cart W × ℤ × Option ℕ)
    → (b ≡ true → Outcome slots kind flags x)
    → Outcome slots kind flags y
    → Outcome slots kind flags (if b then x else y)
if-Outcome slots kind flags true x y f o = f refl
if-Outcome slots kind flags false x y f o = o

pub ensure_info-slots : {W : Type 0} (cart : Cart W) → (ensure_info cart).0.slots ≡ cart.slots
unfolding ensure_info
ensure_info-slots cart = ground arith

open_kind-Outcome :
    {W : Type 0} (cart : Cart W) (kind : Kind) (flags : ℕ)
    → IsCart cart
    → Outcome cart.slots kind flags (open_kind cart kind flags)
unfolding open_kind
open_kind-Outcome {W = W} cart kind flags h =
    let kept = ensure_info-slots cart in
    if-Outcome cart.slots kind flags (has_flag flags open_write && is_info kind) _ _
      (λ e. (refl, refl))
      (if-Outcome cart.slots kind flags (is_neg (ensure_info cart).1) _ _ (λ e. (e, kept))
        (if-Outcome cart.slots kind flags (is_neg (refusal kind flags (ensure_info cart).2)) _ _
          (λ e. (e, kept))
          (subst
            (λ s.
              Outcome {W = W} s kind flags
                (elim (open_slot max_handles 0 (ensure_info cart).0.slots kind flags) [
                  | none ↦ ((ensure_info cart).0, neg 7, none)
                  | some (slots, local) ↦
                      (record (ensure_info cart).0 { slots = slots }, pos 0, some local)
                ]))
            kept
            (taken (ensure_info cart).0 kind flags
              (open_slot max_handles 0 (ensure_info cart).0.slots kind flags)
              (open_slot-Opens max_handles 0 (ensure_info cart).0.slots kind flags
                (ap length kept ∙ h) (omega arith))))))

-- With a table of four slots, opening a path of the cartridge gives a handle from 1 to 4 that
-- named no slot before and now names one at position 0 with the flags asked for, no other slot
-- changed; or it fails with a negative result, gives no handle and leaves the table as it was.
pub open_path-Outcome :
    {W : Type 0} (cart : Cart W) (path : List ℕ) (kind : Kind) (flags : ℕ)
    → IsCart cart
    → kind_from_path (some path) ≡ some kind
    → Outcome cart.slots kind flags (open_path cart (some path) flags)
unfolding open_path
open_path-Outcome {W = W} cart path kind flags h e =
    subst (Outcome {W = W} cart.slots kind flags) (sym opens) (open_kind-Outcome cart kind flags h)
  where
    opens : open_path cart (some path) flags ≡ open_kind cart kind flags
    opens =
        unfold open_path in
        ap
          (λ (o : Option Kind). elim o [
            | none ↦ (cart, neg 2, none)
            | some k ↦ open_kind cart k flags
          ])
          e
