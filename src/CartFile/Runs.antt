-- ===== src/CartFile/Runs.antt =====
-- Sequences of calls of cart_file.c, and how a written slot shows through the handles.
use chis_link.Common.{
  ℕ, ◌-◌, ◌≤◌, ◌≡◌, ◌≢◌, ◌⊎◌, inl, inr, refl, sym, ap, ◌∙◌, arith, List, [], ◌∷◌, Bool, true, false,
  ◌||◌, ltb, ◌==◌, if◌then◌else◌, Option, none, some, get_or, set, get_or-set_ne,
}
use native.Mathlib.Decide.{dec_lt}
use chis_link.CartFile.{max_handles, Driver, Slot, Cart}
use chis_link.CartFile.Open.{
  slot_from_local, closed_slot, open_path, close, stat, fstat, set_driver,
}
use chis_link.CartFile.Access.{read, direct_read, release_direct, write, seek, truncate, flush}
use chis_link.CartFile.Writing.{Writes, WritesFree}
use chis_link.CartFile.Opened.{WritesClosed}

-- A call with its arguments.
pub data Call (W : Type 0) : Type 0 where
  opens : Option (List ℕ) → ℕ → Call W
  closes releases flushes fstats : ℕ → Call W
  reads writes : ℕ → Option (List ℕ) → ℕ → Call W
  takes seeks truncates : ℕ → ℕ → Call W
  stats : Option (List ℕ) → Call W
  installs : Option (Driver W) → Call W

unfoldable pub step : {W : Type 0} → Cart W → Call W → Cart W
step cart (opens path flags) = (open_path cart path flags).0
step cart (closes local) = (close cart local).0
step cart (releases local) = (release_direct cart local).0
step cart (flushes local) = (flush cart local).0
step cart (fstats local) = (fstat cart local).0
step cart (reads local dst n) = (read cart local dst n).cart
step cart (writes local src n) = (write cart local src n).0
step cart (takes local n) = (direct_read cart local n).0
step cart (seeks local offset) = (seek cart local offset).0
step cart (truncates local size) = (truncate cart local size).0
step cart (stats path) = (stat cart path).0
step cart (installs driver) = set_driver cart driver

unfoldable pub run : {W : Type 0} → Cart W → List (Call W) → Cart W
run cart [] = cart
run cart (call ∷ calls) = run (step cart call) calls

-- The call may give the window of the handle back, or end the handle.
abbrev pub gives_back : {W : Type 0} → ℕ → Call W → Bool
gives_back local (closes l) = l == local
gives_back local (releases l) = l == local
gives_back local (installs driver) = true
gives_back local call = false

abbrev pub is_opening : {W : Type 0} → Call W → Bool
is_opening (opens path flags) = true
is_opening call = false

-- A handle that names a slot is in range, and the slot is open.
named :
    (slots : List Slot) (local : ℕ) (s : Slot)
    → slot_from_local slots local ≡ some s
    → (1 ≤ local) × (local ≤ max_handles) × ((get_or slots (local - 1) closed_slot).is_open ≡ true)
unfolding slot_from_local
named slots local s e = ground (arith, e)

pub same_or_not : (m n : ℕ) → (m ≡ n) ⊎ (m ≢ n)
same_or_not m n = elim (dec_lt m n) [
  | yes lt ↦ inr (omega arith)
  | no ge ↦ elim (dec_lt n m) [ yes gt ↦ inr (omega arith) | no le ↦ inl (omega arith) ]
]

-- A handle names the same slot when another place of the table is written.
elsewhere :
    (slots : List Slot) (i local : ℕ) (x : Slot)
    → ((1 ≤ local) → i ≢ local - 1)
    → slot_from_local (set slots i x) local ≡ slot_from_local slots local
unfolding slot_from_local
elsewhere slots i local x ne = elim (same_or_not local 0) [
  | inl z ↦ rw z refl
  | inr h ↦
      ap
        (λ (slot : Slot).
          if local == 0 || ltb max_handles local
          then none
          else if slot.is_open
          then some slot
          else none)
        (get_or-set_ne slots x closed_slot (ne (omega arith)))
]

other_place :
    (slots : List Slot) (l local : ℕ) (s : Slot)
    → slot_from_local slots l ≡ some s
    → l ≢ local
    → (1 ≤ local)
    → l - 1 ≢ local - 1
other_place slots l local s e ne h = omega (arith, (named slots l s e).0, ne)

module _ (slots slots' : List Slot) (local : ℕ) where
  pub other_kept :
      (l : ℕ)
      → l ≢ local
      → Writes slots l slots'
      → slot_from_local slots' local ≡ slot_from_local slots local
  other_kept l ne (inl q) = ap (λ k. slot_from_local k local) q
  other_kept l ne (inr (s, x, e, q)) =
      ap (λ k. slot_from_local k local) q
      ∙ elsewhere slots (l - 1) local x (other_place slots l local s e ne)

  -- A slot with a window outstanding is written by no call that needs a free one.
  pub free_kept :
      (l : ℕ) (slot : Slot)
      → slot_from_local slots local ≡ some slot
      → slot.direct_active ≡ true
      → WritesFree slots l slots'
      → slot_from_local slots' local ≡ slot_from_local slots local
  free_kept l slot here active (inl q) = ap (λ k. slot_from_local k local) q
  free_kept l slot here active (inr (s, x, e, free, q)) = elim (same_or_not l local) [
    | inl same ↦
        let both : some s ≡ some slot = sym e ∙ ap (slot_from_local slots) same ∙ here in
        absurd (ground (arith, both, active, free))
    | inr ne ↦ other_kept l ne (inr (s, x, e, q))
  ]

  pub opened_kept :
      (slot : Slot)
      → slot_from_local slots local ≡ some slot
      → WritesClosed slots slots'
      → slot_from_local slots' local ≡ slot_from_local slots local
  opened_kept slot here (inl q) = ap (λ k. slot_from_local k local) q
  opened_kept slot here (inr (i, x, closed, q)) =
      ap (λ k. slot_from_local k local) q
      ∙ elsewhere slots i local x
          (λ _ e. absurd (ground (arith, e, closed, (named slots local slot here).2)))
