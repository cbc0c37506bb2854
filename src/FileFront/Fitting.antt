-- ===== src/FileFront/Fitting.antt =====
-- Which backends fit a path: what the tests of find_backend in gba/sdk/src/file.c say of an entry.
use chis_link.Common.{
  ℕ, ◌≤◌, ◌≡◌, ◌⊎◌, refl, sym, ap, arith, List, [], ◌∷◌, true, false, Option, none, some, ◌++◌, ◌<◌,
  length, min, not, ◌==◌, if◌then◌else◌, zero, suc, ◌∙◌,
}
use mathlib.Core.Path.{ap₂, subst}
use chis_link.FileFront.{Ops, Backend, starts_with, cstr_len_u8, measured, matches}

-- The entry has operations, and its prefix has the length `n`, as it gives it or, for 0, at most 255 characters
-- of its own; the path starts with so many characters of it.
abbrev pub Fits : {W : Type 0} → List ℕ → Backend W → ℕ → Type 0
Fits {W} path b n =
    (ops : Ops W) × (start after left : List ℕ) × (b.ops ≡ some ops)
    × (b.prefix ≡ some (start ++ left))
    × (path ≡ start ++ after)
    × (length start ≡ n)
    × (((b.prefix_length ≡ n) × (0 < n))
        ⊎ ((b.prefix_length ≡ 0) × (n ≡ min (length (start ++ left)) 255)))

abbrev pub Refused : {W : Type 0} → List ℕ → Option (Backend W) → Type 0
Refused path none = Unit {0}
Refused path (some b) = (n : ℕ) → ¬ Fits path b n

-- The entry does not fit the path, or with at most `n` characters.
abbrev pub Within : {W : Type 0} → List ℕ → ℕ → Option (Backend W) → Type 0
Within path n none = Unit {0}
Within path n (some b) = Refused path (some b) ⊎ ((m : ℕ) × Fits path b m × (m ≤ n))

-- The test of the characters finds a common start, and finds every one.
starts_with-split :
    (n : ℕ) (path p : List ℕ)
    → starts_with n path p ≡ true
    → (start after left : List ℕ) × (p ≡ start ++ left)
      × (path ≡ start ++ after)
      × (length start ≡ n)
unfolding starts_with
starts_with-split zero path p e = ([], path, p, refl, refl, refl)
starts_with-split (suc n) [] p e = absurd (ground (arith, e))
starts_with-split (suc n) (c ∷ path) [] e = absurd (ground (arith, e))
starts_with-split (suc n) (c ∷ path) (d ∷ p) e =
    let same : c ≡ d = ground (arith, e) in
    let (start, after, left, e1, e2, e3) = starts_with-split n path p (ground (arith, e)) in
    (d ∷ start, after, left, ap (λ t. d ∷ t) e1, ap₂ ◌∷◌ same e2, omega (arith, e3))

starts_with-append :
    (start after left : List ℕ) → starts_with (length start) (start ++ after) (start ++ left) ≡ true
unfolding starts_with
starts_with-append [] after left = refl
starts_with-append (c ∷ start) after left =
    let same : (c == c) ≡ true = ground arith in rw (same, starts_with-append start after left) refl

-- What the code tests is what the table's entry says.
pub matches-Fits :
    {W : Type 0} (path : List ℕ) (prefix : Option (List ℕ)) (len : ℕ) (ops : Option (Ops W))
    → matches path (record { prefix = prefix; prefix_length = len; ops = ops }) ≡ true
    → Fits path
        (record { prefix = prefix; prefix_length = len; ops = ops })
        (measured {W = W} (record { prefix = prefix; prefix_length = len; ops = ops }))
unfolding matches
matches-Fits path none len ops e = absurd (ground (arith, e))
matches-Fits path (some p) len none e = absurd (ground (arith, e))
matches-Fits {W} path (some p) len (some ops) e =
    let n = measured {W = W} (record { prefix = some p; prefix_length = len; ops = some ops }) in
    let (start, after, left, e1, e2, e3) = starts_with-split n path p e in
    (ops, start, after, left, refl, ap some e1, e2, e3, by_length start left e1)
  where
    by_length :
        (start left : List ℕ)
        → p ≡ start ++ left
        → ((len ≡ (if not (len == 0) then len else cstr_len_u8 (some p)))
            × (0 < (if not (len == 0) then len else cstr_len_u8 (some p))))
          ⊎ ((len ≡ 0)
              × ((if not (len == 0) then len else cstr_len_u8 (some p))
                  ≡ min (length (start ++ left)) 255))
    by_length start left e = let same = ap length e in ground (arith, same)

Fits-matches :
    {W : Type 0} (path : List ℕ) (b : Backend W) (n : ℕ)
    → Fits path b n
    → (matches path b ≡ true) × (measured b ≡ n)
unfolding matches
Fits-matches {W} path b n (ops, start, after, left, eo, ep, ea, en, el) =
    subst (λ (k : Backend W). (matches path k ≡ true) × (measured k ≡ n)) (sym whole) (tested, long)
  where
    whole :
        b
        ≡ record { prefix = some (start ++ left); prefix_length = b.prefix_length; ops = some ops }
    whole =
        ap₂
          (λ (p : Option (List ℕ)) (o : Option (Ops W)). record {
            prefix = p;
            prefix_length = b.prefix_length;
            ops = o;
          })
          ep eo

    entry : Backend W
    entry = record {
      prefix = some (start ++ left);
      prefix_length = b.prefix_length;
      ops = some ops;
    }

    long : measured entry ≡ n
    long = ground (arith, el)

    tested : starts_with (measured entry) path (start ++ left) ≡ true
    tested =
        ap₂ (λ (k : ℕ) (t : List ℕ). starts_with k t (start ++ left)) (long ∙ sym en) ea
        ∙ starts_with-append start after left

pub Fails-Refused :
    {W : Type 0} (path : List ℕ) (b : Backend W) → matches path b ≡ false → Refused path (some b)
Fails-Refused path b e = λ n fits. absurd (ground (arith, e, Fits-matches path b n fits))
