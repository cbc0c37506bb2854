-- ===== src/Stream/Window.antt =====
-- Runs of slots that go round the end of the slot array.
use chis_link.Common.{ℕ, zero, suc, ◌+◌, ◌≤◌, ◌<◌, ◌≡◌, ◌⊎◌, refl, ap, arith}
use chis_link.Common.{List, [], ◌∷◌, ◌++◌, get_or, set, length, get_or-set_self, get_or-set_ne}
use mathlib.Core.Path.{ap₂}
use native.Mathlib.Decide.{dec_lt}
use chis_link.Stream.{Slot, empty_slot, next_slot}

-- The `n` slots from index `at` on, in an array of `count`.
abbrev pub window : ℕ → List Slot → ℕ → ℕ → List Slot
window count slots at zero = []
window count slots at (suc n) =
    get_or slots at empty_slot ∷ window count slots (next_slot count at) n

-- `i` is `n` places after `at`, round the end.
abbrev pub After : ℕ → ℕ → ℕ → ℕ → Type 0
After count at n i = (at + n ≡ i) ⊎ (at + n ≡ i + count)

-- `i` is none of the `n` places from `at` on.
abbrev pub Outside : ℕ → ℕ → ℕ → ℕ → Type 0
Outside count at n i = (at + n ≤ i) ⊎ ((i < at) × (at + n ≤ i + count))

pub length-window :
    (count : ℕ) (slots : List Slot) (at n : ℕ) → length (window count slots at n) ≡ n
length-window count slots at zero = refl
length-window count slots at (suc n) = ap suc (length-window count slots (next_slot count at) n)

-- The next slot, without the wrap of `uint8_t`.
pub next_slot_lem :
    (count at : ℕ)
    → at < count
    → count < 256
    → (next_slot count at < count)
      × (((at + 1 < count) × (next_slot count at ≡ at + 1))
          ⊎ ((at + 1 ≡ count) × (next_slot count at ≡ 0)))
unfolding next_slot
next_slot_lem count at h narrow = elim (dec_lt (at + 1) count) [
  | yes p ↦ ground arith
  | no p ↦ ground arith
]

module _ (count : ℕ) (narrow : count < 256) (slots : List Slot) (i : ℕ) (x : Slot) where
  -- A write outside a run does not change it.
  pub window-set-Outside :
      (at n : ℕ)
      → at < count
      → i < count
      → Outside count at n i
      → window count (set slots i x) at n ≡ window count slots at n
  window-set-Outside at zero ha hi out = refl
  window-set-Outside at (suc n) ha hi out =
      ap₂ ◌∷◌ (get_or-set_ne slots x empty_slot (omega arith)) (
        window-set-Outside (next_slot count at) n (omega (arith, next_slot_lem count at ha narrow))
          hi (omega (arith, next_slot_lem count at ha narrow)))

  -- A write just past a run makes it longer by that slot.
  pub window-set-After :
      (at n : ℕ)
      → at < count
      → i < count
      → i < length slots
      → n < count
      → After count at n i
      → window count (set slots i x) at (suc n) ≡ window count slots at n ++ (x ∷ [])
  window-set-After at zero ha hi room hn af =
      let e : i ≡ at = omega arith in
      rw e (ap (λ t. t ∷ []) (get_or-set_self slots at x empty_slot (omega arith)))
  window-set-After at (suc n) ha hi room hn af =
      ap₂ ◌∷◌ (get_or-set_ne slots x empty_slot (omega arith)) (
        window-set-After (next_slot count at) n (omega (arith, next_slot_lem count at ha narrow)) hi
          room (omega arith) (omega (arith, next_slot_lem count at ha narrow)))
