-- ===== src/Common/Ranges.antt =====
-- Writes into a part of an array.
use Prim.Native.Nat.{ℕ, zero, suc, ◌+◌, ◌-◌, ◌≤◌}
use mathlib.Core.Path.{◌≡◌, refl, sym, ap, ◌∙◌}
use mathlib.Core.List.{List, [], ◌∷◌, ◌++◌}
use native.Mathlib.Omega.{arith}
use chis_link.Common.Lists.{
  length, take, drop, overwrite, length-append, length-take, length-drop, length-overwrite,
  take-append_le, take-take, drop-append_length, drop-drop, take-drop-take, take-overwrite,
}

module _ {ℓ} {A : Type ℓ} where
  -- Nothing outside the places from `lo` to `hi` changes.
  abbrev pub Changes : ℕ → ℕ → List A → List A → Type ℓ
  Changes lo hi xs ys =
      (length ys ≡ length xs) × (take lo ys ≡ take lo xs) × (drop hi ys ≡ drop hi xs)

  pub drop-overwrite :
      (n : ℕ) (xs ys : List A) → length xs ≤ n → drop n (overwrite xs ys) ≡ drop n ys
  drop-overwrite n [] ys h = refl
  drop-overwrite n (x ∷ xs) [] h = refl
  drop-overwrite zero (x ∷ xs) (y ∷ ys) h = absurd (omega arith)
  drop-overwrite (suc n) (x ∷ xs) (y ∷ ys) h = drop-overwrite n xs ys (omega arith)

  pub drop-append_ge :
      (n : ℕ) (xs ys : List A) → length xs ≤ n → drop n (xs ++ ys) ≡ drop (n - length xs) ys
  drop-append_ge n xs ys h =
      ap (λ k. drop k (xs ++ ys)) (omega arith)
      ∙ sym (drop-drop (n - length xs) (length xs) (xs ++ ys))
      ∙ ap (drop (n - length xs)) (drop-append_length xs ys)

  pub Changes-trans :
      (lo hi : ℕ) (xs ys zs : List A)
      → Changes lo hi xs ys
      → Changes lo hi ys zs
      → Changes lo hi xs zs
  Changes-trans lo hi xs ys zs (l, t, d) (l', t', d') = (l' ∙ l, t' ∙ t, d' ∙ d)

  -- A copy of `bytes` to the place `at`.
  pub put-Changes :
      (lo hi at : ℕ) (bytes xs : List A)
      → lo ≤ at
      → at + length bytes ≤ hi
      → hi ≤ length xs
      → Changes lo hi xs (take at xs ++ overwrite bytes (drop at xs))
  put-Changes lo hi at bytes xs h1 h2 h3 =
      let put = overwrite bytes (drop at xs) in
      let before : length (take at xs) ≡ at = omega (arith, length-take at xs) in
      (
        omega (
          arith,
          length-append (take at xs) put,
          length-overwrite bytes (drop at xs),
          length-drop at xs,
          before,
        ),
        take-append_le lo (take at xs) put (omega (arith, before)) ∙ take-take lo at xs h1,
        drop-append_ge hi (take at xs) put (omega (arith, before))
            ∙ ap (λ k. drop (hi - k) put) before
            ∙ drop-overwrite (hi - at) bytes (drop at xs) (omega arith)
            ∙ drop-drop (hi - at) at xs
            ∙ ap (λ k. drop k xs) (omega arith),
      )

  -- What is read in front of the places, or behind them.
  pub take-drop-Changes :
      (lo hi at n : ℕ) (xs ys : List A)
      → Changes lo hi xs ys
      → at + n ≤ lo
      → take n (drop at ys) ≡ take n (drop at xs)
  take-drop-Changes lo hi at n xs ys (l, t, d) h =
      sym (take-drop-take n at lo ys h)
      ∙ ap (λ zs. take n (drop at zs)) t
      ∙ take-drop-take n at lo xs h

  pub drop-Changes :
      (lo hi at : ℕ) (xs ys : List A) → Changes lo hi xs ys → hi ≤ at → drop at ys ≡ drop at xs
  drop-Changes lo hi at xs ys (l, t, d) h =
      ap (λ k. drop k ys) same
      ∙ sym (drop-drop (at - hi) hi ys)
      ∙ ap (drop (at - hi)) d
      ∙ drop-drop (at - hi) hi xs
      ∙ ap (λ k. drop k xs) (sym same)
    where
      same : at ≡ hi + (at - hi)
      same = omega arith

  take-append_add : (k : ℕ) (xs ys : List A) → take (length xs + k) (xs ++ ys) ≡ xs ++ take k ys
  take-append_add k [] ys = ap (λ n. take n ys) (omega arith)
  take-append_add k (x ∷ xs) ys =
      ap (λ n. take n (x ∷ (xs ++ ys))) next ∙ ap (λ t. x ∷ t) (take-append_add k xs ys)
    where
      next : suc (length xs) + k ≡ suc (length xs + k)
      next = omega arith

  -- The copy itself, behind what is in front of it.
  pub take-put :
      (at : ℕ) (bytes xs : List A)
      → at + length bytes ≤ length xs
      → take (at + length bytes) (take at xs ++ overwrite bytes (drop at xs)) ≡ take at xs ++ bytes
  take-put at bytes xs h =
      ap (λ k. take (k + length bytes) (take at xs ++ overwrite bytes (drop at xs))) (sym before)
      ∙ take-append_add (length bytes) (take at xs) (overwrite bytes (drop at xs))
      ∙ ap (λ t. take at xs ++ t)
          (take-overwrite bytes (drop at xs) (omega (arith, length-drop at xs)))
    where
      before : length (take at xs) ≡ at
      before = omega (arith, length-take at xs)
