-- ===== src/FileFront/Choice.antt =====
-- Which backend a path goes to.
use chis_link.Common.{
  ℕ, ◌≤◌, ◌≡◌, ◌⊎◌, inl, inr, refl, sym, ap, arith, List, [], ◌∷◌, true, false, ◌&&◌, leb, if_elim,
  Option, none, some, All, Bool,
}
use mathlib.Core.Path.{subst}
use chis_link.FileFront.{Backend, measured, matches, find_loop, find_backend}
use chis_link.FileFront.Fitting.{Fits, Refused, Within, matches-Fits, Fails-Refused}

-- The entry, if it fits the path, has a prefix of at most `n` characters.
abbrev Below : {W : Type 0} → List ℕ → ℕ → Option (Backend W) → Type 0
Below path n none = Unit {0}
Below path n (some b) = (matches path b ≡ false) ⊎ (measured b ≤ n)

abbrev Fails : {W : Type 0} → List ℕ → Option (Backend W) → Type 0
Fails path none = Unit {0}
Fails path (some b) = matches path b ≡ false

-- The backend stands in the table.
abbrev pub Holds : {W : Type 0} → Backend W → List (Option (Backend W)) → Type 0
Holds b [] = ⊥
Holds b (entry ∷ backends) = (entry ≡ some b) ⊎ Holds b backends

-- What the choice says of the table.
abbrev Taken : {W : Type 0} → List ℕ → List (Option (Backend W)) → Option (Backend W) → Type 0
Taken path backends none = All (Fails path) backends
Taken path backends (some b) =
    Holds b backends × (matches path b ≡ true) × All (Below path (measured b)) backends

-- What the choice says of the table.
abbrev pub Chosen : {W : Type 0} → List ℕ → List (Option (Backend W)) → Option (Backend W) → Type 0
Chosen path backends none = All (Refused path) backends
Chosen path backends (some b) =
    Holds b backends × ((n : ℕ) × Fits path b n × All (Within path n) backends)

module _ {W : Type 0} (path : List ℕ) where
  -- The loop that has found `a` ends with `a` or with a later one whose prefix is not shorter.
  abbrev Better : List (Option (Backend W)) → Backend W → Option (Backend W) → Type 0
  Better backends a r =
      (b : Backend W) × (r ≡ some b)
      × (Holds b backends ⊎ (b ≡ a))
      × (matches path b ≡ true)
      × (measured a ≤ measured b)
      × All (Below path (measured b)) backends

  find_loop-Better :
      (backends : List (Option (Backend W))) (a : Backend W)
      → matches path a ≡ true
      → Better backends a (find_loop path backends (some a) (measured a))
  unfolding find_loop
  find_loop-Better [] a m = (a, refl, inr refl, m, omega arith, tt)
  find_loop-Better (none ∷ backends) a m =
      let (b, e, at, mb, le, all) = find_loop-Better backends a m in
      (b, e, elim at [ inl h ↦ inl (inr h) | inr q ↦ inr q ], mb, le, (tt, all))
  find_loop-Better (some c ∷ backends) a m =
      if_elim (Better (some c ∷ backends) a) (matches path c && leb (measured a) (measured c)) _ _
        (λ t.
          let (b, e, at, mb, le, all) = find_loop-Better backends c (ground (arith, t)) in
          (
            b,
            e,
            inl (elim at [ inl h ↦ inr h | inr q ↦ inl (ap some (sym q)) ]),
            mb,
            omega (arith, le, longer c t),
            (inr le, all),
          ))
        (λ f.
          let (b, e, at, mb, le, all) = find_loop-Better backends a m in
          (b, e, elim at [ inl h ↦ inl (inr h) | inr q ↦ inr q ], mb, le, (within c b f le, all)))
    where
      longer :
          (c : Backend W)
          → (matches path c && leb (measured a) (measured c)) ≡ true
          → measured a ≤ measured c
      longer c t = ground (arith, t)

      within :
          (c b : Backend W)
          → (matches path c && leb (measured a) (measured c)) ≡ false
          → measured a ≤ measured b
          → Below path (measured b) (some c)
      within c b f le = ground (arith, f, le)

  find_loop-Taken :
      (backends : List (Option (Backend W))) → Taken path backends (find_loop path backends none 0)
  unfolding find_loop
  find_loop-Taken [] = tt
  find_loop-Taken (none ∷ backends) =
      skip (find_loop path backends none 0) (find_loop-Taken backends)
    where
      skip : (r : Option (Backend W)) → Taken path backends r → Taken path (none ∷ backends) r
      skip none all = (tt, all)
      skip (some b) (at, m, all) = (inr at, m, (tt, all))
  find_loop-Taken (some c ∷ backends) =
      if_elim (Taken path (some c ∷ backends)) (matches path c && leb 0 (measured c)) _ _
        (λ t.
          let (b, e, at, mb, le, all) = find_loop-Better backends c (ground (arith, t)) in
          subst (Taken path (some c ∷ backends)) (sym e)
            (elim at [ inl h ↦ inr h | inr q ↦ inl (ap some (sym q)) ], mb, (inr le, all)))
        (λ f. skip (ground (arith, f)) (find_loop path backends none 0) (find_loop-Taken backends))
    where
      skip :
          matches path c ≡ false
          → (r : Option (Backend W)) → Taken path backends r
          → Taken path (some c ∷ backends) r
      skip f none all = (f, all)
      skip f (some b) (at, m, all) = (inr at, m, (inl f, all))

none_fitting :
    {W : Type 0} (path : List ℕ) (backends : List (Option (Backend W)))
    → All (Fails path) backends
    → All (Refused path) backends
none_fitting path [] all = tt
none_fitting path (none ∷ backends) (e, all) = (tt, none_fitting path backends all)
none_fitting path (some b ∷ backends) (e, all) =
    (Fails-Refused path b e, none_fitting path backends all)

longest_fitting :
    {W : Type 0} (path : List ℕ) (n : ℕ) (backends : List (Option (Backend W)))
    → All (Below path n) backends
    → All (Within path n) backends
longest_fitting path n [] all = tt
longest_fitting path n (none ∷ backends) (e, all) = (tt, longest_fitting path n backends all)
longest_fitting path n (some b ∷ backends) (e, all) =
    (below (matches path b) refl, longest_fitting path n backends all)
  where
    below : (t : Bool) → matches path b ≡ t → Within path n (some b)
    below false q = inl (Fails-Refused path b q)
    below true q =
        inr (measured b, matches-Fits path b.prefix b.prefix_length b.ops q, ground (arith, e, q))

Taken-Chosen :
    {W : Type 0} (path : List ℕ) (backends : List (Option (Backend W))) (r : Option (Backend W))
    → Taken path backends r
    → Chosen path backends r
Taken-Chosen path backends none all = none_fitting path backends all
Taken-Chosen path backends (some b) (at, m, all) = (
  at,
  (
    measured b,
    matches-Fits path b.prefix b.prefix_length b.ops m,
    longest_fitting path (measured b) backends all,
  ),
)

-- A backend fits a path with n characters if it has operations and a prefix, n is its prefix
-- length, or for the length 0 the number of the prefix's characters, at most 255, and the path and
-- the prefix have their first n characters in common. The backend that a path goes to stands in
-- the table and fits the path, and every backend of the table that fits the path does so with no
-- more characters; without one, no backend of the table fits the path.
pub find_backend-Chosen :
    {W : Type 0} (backends : List (Option (Backend W))) (path : List ℕ)
    → Chosen path backends (find_backend backends path)
unfolding find_backend
find_backend-Chosen backends path =
    Taken-Chosen path backends (find_loop path backends none 0) (find_loop-Taken path backends)
