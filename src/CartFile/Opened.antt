-- ===== src/CartFile/Opened.antt =====
-- Which slots of its table opening a path and asking for metadata write.
use chis_link.Common.{
  ℕ, zero, suc, ◌+◌, ◌≡◌, ◌⊎◌, inl, inr, refl, arith, List, false, not, if_elim, Option, none, some,
  get_or, set, ℤ, pos, neg, is_neg, ◌&&◌,
}
use mathlib.Core.Path.{subst}
use chis_link.CartFile.{max_handles, Kind, Slot, Cart, open_write, has_flag, is_info}
use chis_link.CartFile.Open.{
  closed_slot, opened, open_slot, open_kind, open_path, ensure_info, stat, FileStat, refusal,
  kind_from_path,
}
use chis_link.CartFile.Handles.{ensure_info-slots}
use chis_link.CartFile.Writing.{by_option}

-- A slot that was closed is written.
abbrev pub WritesClosed : List Slot → List Slot → Type 0
WritesClosed slots slots' =
    (slots' ≡ slots)
    ⊎ ((i : ℕ) × (x : Slot) × ((get_or slots i closed_slot).is_open ≡ false)
        × (slots' ≡ set slots i x))

abbrev OpensClosed : List Slot → Option (List Slot × ℕ) → Type 0
OpensClosed slots none = Unit {0}
OpensClosed slots (some (slots', local)) = WritesClosed slots slots'

open_slot-OpensClosed :
    (left i : ℕ) (slots : List Slot) (kind : Kind) (flags : ℕ)
    → OpensClosed slots (open_slot left i slots kind flags)
unfolding open_slot
open_slot-OpensClosed zero i slots kind flags = tt
open_slot-OpensClosed (suc left) i slots kind flags =
    if_elim (OpensClosed slots) (not (get_or slots i closed_slot).is_open) _ _
      (λ e. inr (i, opened kind flags, ground (arith, e), refl))
      (λ _. open_slot-OpensClosed left (i + 1) slots kind flags)

module _ {W : Type 0} (cart : Cart W) where
  open_kind-WritesClosed :
      (kind : Kind) (flags : ℕ) → WritesClosed cart.slots (open_kind cart kind flags).0.slots
  unfolding open_kind
  open_kind-WritesClosed kind flags =
      let P = λ (r : Cart W × ℤ × Option ℕ). WritesClosed cart.slots r.0.slots in
      let q = ensure_info-slots cart in
      let cart' = (ensure_info cart).0 in
      if_elim P (has_flag flags open_write && is_info kind) _ _ (λ _. inl refl)
        (λ _.
          if_elim P (is_neg (ensure_info cart).1) _ _ (λ _. inl q)
            (λ _.
              if_elim P (is_neg (refusal kind flags (ensure_info cart).2)) _ _ (λ _. inl q)
                (λ _.
                  taken cart' (open_slot max_handles 0 cart'.slots kind flags) q
                    (open_slot-OpensClosed max_handles 0 cart'.slots kind flags))))
    where
      taken :
          (cart' : Cart W) (o : Option (List Slot × ℕ))
          → cart'.slots ≡ cart.slots
          → OpensClosed cart'.slots o
          → WritesClosed cart.slots
              (elim o as (λ _. Cart W × ℤ × Option ℕ) [
                | none ↦ (cart', neg 7, none)
                | some (slots, local) ↦ (record cart' { slots = slots }, pos 0, some local)
              ]).0.slots
      taken cart' none q w = inl q
      taken cart' (some (slots, local)) q w = subst (λ k. WritesClosed k slots) q w

  pub open_path-WritesClosed :
      (path : Option (List ℕ)) (flags : ℕ)
      → WritesClosed cart.slots (open_path cart path flags).0.slots
  unfolding open_path
  open_path-WritesClosed none flags = inl refl
  open_path-WritesClosed (some path) flags =
      by_option (λ (r : Cart W × ℤ × Option ℕ). WritesClosed cart.slots r.0.slots)
        (kind_from_path (some path)) _ _ (inl refl) (λ kind _. open_kind-WritesClosed kind flags)

  pub stat-slots : (path : Option (List ℕ)) → (stat cart path).0.slots ≡ cart.slots
  unfolding stat
  stat-slots path =
      let P = λ (r : Cart W × ℤ × Option FileStat). r.0.slots ≡ cart.slots in
      let q = ensure_info-slots cart in
      by_option P (kind_from_path path) _ _ refl
        (λ kind _. if_elim P (is_neg (ensure_info cart).1) _ _ (λ _. q) (λ _. q))
