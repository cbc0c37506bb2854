-- ===== src/CartFile/Closed.antt =====
-- A closed handle of cart_file.c names nothing until a file is opened again.
use chis_link.Common.{ℕ, ◌≡◌, inl, inr, sym, ap, ◌∙◌, arith, List, [], ◌∷◌, All, false, none, some}
use chis_link.CartFile.{Slot, Cart}
use chis_link.CartFile.Open.{slot_from_local, close}
use chis_link.CartFile.Access.{read, direct_read, release_direct, write, seek, truncate, flush}
use chis_link.CartFile.Handles.{IsCart, close-dead, set_driver-dead}
use chis_link.CartFile.Writing.{
  Writes, WritesFree, seek-WritesFree, flush-WritesFree, truncate-WritesFree, write-WritesFree,
  read-WritesFree, direct_read-WritesFree, release_direct-Writes, close-Writes, fstat-slots,
}
use chis_link.CartFile.Opened.{stat-slots}
use chis_link.CartFile.Runs.{
  Call, opens, closes, releases, flushes, fstats, reads, writes, takes, seeks, truncates, stats,
  installs, step, run, is_opening, other_kept, same_or_not,
}

-- One call that opens nothing leaves a handle without a slot as it is.
dead_after :
    (slots slots' : List Slot) (l local : ℕ)
    → slot_from_local slots local ≡ none
    → Writes slots l slots'
    → slot_from_local slots' local ≡ none
dead_after slots slots' l local dead (inl q) = ap (λ k. slot_from_local k local) q ∙ dead
dead_after slots slots' l local dead (inr (s, x, e, q)) = elim (same_or_not l local) [
  | inl same ↦
      let both : some s ≡ none = sym e ∙ ap (slot_from_local slots) same ∙ dead in
      absurd (ground (arith, both))
  | inr ne ↦ other_kept slots slots' local l ne (inr (s, x, e, q)) ∙ dead
]

any_slot : (slots slots' : List Slot) (l : ℕ) → WritesFree slots l slots' → Writes slots l slots'
any_slot slots slots' l (inl q) = inl q
any_slot slots slots' l (inr (s, x, e, free, q)) = inr (s, x, e, q)

step_dead :
    {W : Type 0} (cart : Cart W) (call : Call W) (local : ℕ)
    → slot_from_local cart.slots local ≡ none
    → is_opening call ≡ false
    → slot_from_local (step cart call).slots local ≡ none
unfolding step
step_dead cart (opens path flags) local dead keeps = absurd (ground (arith, keeps))
step_dead cart (closes l) local dead keeps =
    dead_after cart.slots (close cart l).0.slots l local dead (close-Writes cart l)
step_dead cart (releases l) local dead keeps =
    dead_after cart.slots (release_direct cart l).0.slots l local dead
      (release_direct-Writes cart l)
step_dead cart (flushes l) local dead keeps =
    dead_after cart.slots (flush cart l).0.slots l local dead
      (any_slot cart.slots (flush cart l).0.slots l (flush-WritesFree cart l))
step_dead cart (reads l dst n) local dead keeps =
    dead_after cart.slots (read cart l dst n).cart.slots l local dead
      (any_slot cart.slots (read cart l dst n).cart.slots l (read-WritesFree cart l dst n))
step_dead cart (writes l src n) local dead keeps =
    dead_after cart.slots (write cart l src n).0.slots l local dead
      (any_slot cart.slots (write cart l src n).0.slots l (write-WritesFree cart l src n))
step_dead cart (takes l n) local dead keeps =
    dead_after cart.slots (direct_read cart l n).0.slots l local dead
      (any_slot cart.slots (direct_read cart l n).0.slots l (direct_read-WritesFree cart l n))
step_dead cart (seeks l offset) local dead keeps =
    dead_after cart.slots (seek cart l offset).0.slots l local dead
      (any_slot cart.slots (seek cart l offset).0.slots l (seek-WritesFree cart l offset))
step_dead cart (truncates l size) local dead keeps =
    dead_after cart.slots (truncate cart l size).0.slots l local dead
      (any_slot cart.slots (truncate cart l size).0.slots l (truncate-WritesFree cart l size))
step_dead cart (fstats l) local dead keeps =
    ap (λ k. slot_from_local k local) (fstat-slots cart l) ∙ dead
step_dead cart (stats path) local dead keeps =
    ap (λ k. slot_from_local k local) (stat-slots cart path) ∙ dead
step_dead cart (installs driver) local dead keeps = set_driver-dead cart driver local

run_dead :
    {W : Type 0} (cart : Cart W) (calls : List (Call W)) (local : ℕ)
    → slot_from_local cart.slots local ≡ none
    → All (λ call. is_opening call ≡ false) calls
    → slot_from_local (run cart calls).slots local ≡ none
unfolding run
run_dead cart [] local dead keeps = dead
run_dead cart (call ∷ calls) local dead keeps =
    run_dead (step cart call) calls local (step_dead cart call local dead keeps.0) keeps.1

-- With a table of four slots, a handle that was closed names no slot after any sequence of calls,
-- on this handle or others, with any arguments and any driver, in which no path is opened.
pub closed_stays :
    {W : Type 0} (cart : Cart W) (calls : List (Call W)) (local : ℕ)
    → IsCart cart
    → All (λ call. is_opening call ≡ false) calls
    → slot_from_local (run (close cart local).0 calls).slots local ≡ none
closed_stays cart calls local h keeps =
    run_dead (close cart local).0 calls local (close-dead cart local h) keeps
