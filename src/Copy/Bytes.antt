-- ===== src/Copy/Bytes.antt =====
-- The bytes of a window of copy.h, and the loop of copy.c that copies them to the buffer.
use chis_link.Common.{
  ℕ, zero, suc, ◌+◌, ◌-◌, ◌/◌, ◌%◌, ◌≤◌, ◌<◌, ◌≡◌, refl, ap, ◌∙◌, arith, List, [], ◌∷◌, ◌++◌,
  length, take, drop, set, overwrite, append_assoc, IsByte, length-append, ◌==◌, if◌then◌else◌,
}
use mathlib.Core.Path.{ap₂}
use native.Mathlib.Decide.{ℕ_discrete}
use chis_link.Copy.{Window, read_byte, load_half, copy_bytes}

-- The byte that the source takes out of a half word is the one at the address.
byte_of_half :
    (memory : ℕ → ℕ) (a : ℕ)
    → ((at : ℕ) → IsByte (memory at))
    → (if a % 2 == 1 then load_half memory (a - a % 2) / 256 else load_half memory (a - a % 2))
        % 256
      ≡ memory a
byte_of_half memory a h = elim (ℕ_discrete (a % 2) 1) [
  | yes e ↦
      let back : a - a % 2 + 1 ≡ a = omega arith in
      ground (arith, ap memory back, h (a - a % 2), h (a - a % 2 + 1))
  | no n ↦
      let same : a - a % 2 ≡ a = omega arith in
      ground (arith, ap memory same, h (a - a % 2), h (a - a % 2 + 1))
]

-- Either way of access reads the byte at the address.
pub read_byte_value :
    (window : Window) (i : ℕ)
    → ((at : ℕ) → IsByte (window.memory at))
    → 0 < window.data_at
    → i < window.length
    → read_byte window i ≡ window.memory (window.data_at + i)
unfolding read_byte
read_byte_value window i h at_set inside =
    ground (arith, byte_of_half window.memory (window.data_at + i) h)

-- `n` bytes of a window from `at` on.
abbrev pub window_bytes : Window → ℕ → ℕ → List ℕ
window_bytes window at zero = []
window_bytes window at (suc n) = read_byte window at ∷ window_bytes window (at + 1) n

pub length-window_bytes : (window : Window) (at n : ℕ) → length (window_bytes window at n) ≡ n
length-window_bytes window at zero = refl
length-window_bytes window at (suc n) = ap suc (length-window_bytes window (at + 1) n)

pub take-window_bytes :
    (window : Window) (at k n : ℕ)
    → k ≤ n
    → take k (window_bytes window at n) ≡ window_bytes window at k
take-window_bytes window at zero n h = refl
take-window_bytes window at (suc k) zero h = absurd (omega arith)
take-window_bytes window at (suc k) (suc n) h =
    ap (λ t. read_byte window at ∷ t) (take-window_bytes window (at + 1) k n (omega arith))

pub drop-window_bytes :
    (window : Window) (at k n : ℕ)
    → k ≤ n
    → drop k (window_bytes window at n) ≡ window_bytes window (at + k) (n - k)
drop-window_bytes window at zero n h = ap₂ (window_bytes window) at_same n_same
  where
    at_same : at ≡ at + 0
    at_same = omega arith

    n_same : n ≡ n - 0
    n_same = omega arith
drop-window_bytes window at (suc k) zero h = absurd (omega arith)
drop-window_bytes window at (suc k) (suc n) h =
    drop-window_bytes window (at + 1) k n (omega arith) ∙ ap₂ (window_bytes window) at_next n_next
  where
    at_next : at + 1 + k ≡ at + suc k
    at_next = omega arith

    n_next : n - k ≡ suc n - suc k
    n_next = omega arith

set_behind :
    (done rest : List ℕ) (x v i : ℕ)
    → i ≡ length done
    → set (done ++ x ∷ rest) i v ≡ (done ++ v ∷ []) ++ rest
set_behind [] rest x v zero h = refl
set_behind [] rest x v (suc i) h = absurd (omega arith)
set_behind (d ∷ done) rest x v zero h = absurd (omega arith)
set_behind (d ∷ done) rest x v (suc i) h =
    ap (λ t. d ∷ t) (set_behind done rest x v i (omega arith))

-- The loop, once the buffer is split at the index.
copy_bytes-split :
    (window : Window) (n at i : ℕ) (done rest : List ℕ)
    → i ≡ length done
    → n ≤ length rest
    → copy_bytes window n at i (done ++ rest)
      ≡ done ++ overwrite (window_bytes window (at + i) n) rest
unfolding copy_bytes
copy_bytes-split window zero at i done rest hi hn = refl
copy_bytes-split window (suc n) at i done [] hi hn = absurd (omega arith)
copy_bytes-split window (suc n) at i done (x ∷ rest) hi hn =
    let v = read_byte window (at + i) in
    ap (copy_bytes window n at (i + 1)) (set_behind done rest x v i hi)
    ∙ copy_bytes-split window n at (i + 1) (done ++ v ∷ []) rest
        (omega (arith, length-append done (v ∷ []))) (omega arith)
    ∙ append_assoc done (v ∷ []) (overwrite (window_bytes window (at + (i + 1)) n) rest)
    ∙ ap (λ k. done ++ v ∷ overwrite (window_bytes window k n) rest) next
  where
    next : at + (i + 1) ≡ at + i + 1
    next = omega arith

-- The loop puts the bytes of the window at the front of the buffer and leaves the rest.
pub copy_bytes-overwrite :
    (window : Window) (n at : ℕ) (buffer : List ℕ)
    → n ≤ length buffer
    → copy_bytes window n at 0 buffer ≡ overwrite (window_bytes window at n) buffer
copy_bytes-overwrite window n at buffer h =
    copy_bytes-split window n at 0 [] buffer refl h
    ∙ ap (λ k. overwrite (window_bytes window k n) buffer) same
  where
    same : at + 0 ≡ at
    same = omega arith
