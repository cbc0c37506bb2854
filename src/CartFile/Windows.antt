-- ===== src/CartFile/Windows.antt =====
-- A direct window of cart_file.c holds its slot until it is given back.
use chis_link.Common.{ℕ, ◌≡◌, ap, ◌∙◌, arith, List, [], ◌∷◌, All, true, false, some}
use chis_link.CartFile.{Slot, Cart}
use chis_link.CartFile.Open.{slot_from_local, open_path, close}
use chis_link.CartFile.Access.{read, direct_read, release_direct, write, seek, truncate, flush}
use chis_link.CartFile.Writing.{
  seek-WritesFree, flush-WritesFree, truncate-WritesFree, write-WritesFree, read-WritesFree,
  direct_read-WritesFree, release_direct-Writes, close-Writes, fstat-slots,
}
use chis_link.CartFile.Opened.{open_path-WritesClosed, stat-slots}
use chis_link.CartFile.Runs.{
  Call, opens, closes, releases, flushes, fstats, reads, writes, takes, seeks, truncates, stats,
  installs, step, run, gives_back, other_kept, free_kept, opened_kept,
}

-- One call leaves the slot of a handle with a window outstanding, unless it gives the window back.
step_kept :
    {W : Type 0} (cart : Cart W) (call : Call W) (local : ℕ) (slot : Slot)
    → slot_from_local cart.slots local ≡ some slot
    → slot.direct_active ≡ true
    → gives_back local call ≡ false
    → slot_from_local (step cart call).slots local ≡ slot_from_local cart.slots local
unfolding step
step_kept cart (opens path flags) local slot here active keeps =
    opened_kept cart.slots (open_path cart path flags).0.slots local slot here
      (open_path-WritesClosed cart path flags)
step_kept cart (closes l) local slot here active keeps =
    other_kept cart.slots (close cart l).0.slots local l (ground (arith, keeps))
      (close-Writes cart l)
step_kept cart (releases l) local slot here active keeps =
    other_kept cart.slots (release_direct cart l).0.slots local l (ground (arith, keeps))
      (release_direct-Writes cart l)
step_kept cart (flushes l) local slot here active keeps =
    free_kept cart.slots (flush cart l).0.slots local l slot here active (flush-WritesFree cart l)
step_kept cart (fstats l) local slot here active keeps =
    ap (λ k. slot_from_local k local) (fstat-slots cart l)
step_kept cart (reads l dst n) local slot here active keeps =
    free_kept cart.slots (read cart l dst n).cart.slots local l slot here active
      (read-WritesFree cart l dst n)
step_kept cart (writes l src n) local slot here active keeps =
    free_kept cart.slots (write cart l src n).0.slots local l slot here active
      (write-WritesFree cart l src n)
step_kept cart (takes l n) local slot here active keeps =
    free_kept cart.slots (direct_read cart l n).0.slots local l slot here active
      (direct_read-WritesFree cart l n)
step_kept cart (seeks l offset) local slot here active keeps =
    free_kept cart.slots (seek cart l offset).0.slots local l slot here active
      (seek-WritesFree cart l offset)
step_kept cart (truncates l size) local slot here active keeps =
    free_kept cart.slots (truncate cart l size).0.slots local l slot here active
      (truncate-WritesFree cart l size)
step_kept cart (stats path) local slot here active keeps =
    ap (λ k. slot_from_local k local) (stat-slots cart path)
step_kept cart (installs driver) local slot here active keeps = absurd (ground (arith, keeps))

-- While a direct window of a handle is outstanding, no sequence of calls of the cartridge's files,
-- on this handle or others, with any arguments and any driver, changes the slot behind the handle,
-- unless one of them releases the window, closes the handle or sets the driver.
pub window_kept :
    {W : Type 0} (cart : Cart W) (calls : List (Call W)) (local : ℕ) (slot : Slot)
    → slot_from_local cart.slots local ≡ some slot
    → slot.direct_active ≡ true
    → All (λ call. gives_back local call ≡ false) calls
    → slot_from_local (run cart calls).slots local ≡ some slot
unfolding run
window_kept cart [] local slot here active keeps = here
window_kept cart (call ∷ calls) local slot here active keeps =
    window_kept (step cart call) calls local slot
      (step_kept cart call local slot here active keeps.0 ∙ here) active keeps.1
