-- ===== src/Proto/Bytes.antt =====
-- `clp_load_le32` and `clp_store_le32` of proto.h, and their twins in gba/sdk/src/wire.c.
use chis_link.Common.{
  ℕ, zero, suc, ◌+◌, ◌*◌, ◌/◌, ◌%◌, ◌^◌, ◌≤◌, ◌<◌, bit_or, ◌≡◌, refl, sym, ap, ◌∙◌, arith,
}
use chis_link.Common.{
  List, [], ◌∷◌, ltb, if◌then◌else◌, get_or, set, length, take, take_all, overwrite,
  get_or-overwrite, All-overwrite, All-take, All,
}
use chis_link.Common.{IsByte, IsU32, u8}
use chis_link.Common.Bits.Fields.{bit_or_side_by_side, bit_or_comm}
use chis_link.Proto.{load_le32, store_le32}

pub get_or-IsByte : (xs : List ℕ) (i : ℕ) → All IsByte xs → IsByte (get_or xs i 0)
get_or-IsByte [] i h = omega arith
get_or-IsByte (x ∷ xs) zero h = h.0
get_or-IsByte (x ∷ xs) (suc i) h = get_or-IsByte xs i h.1

or_above : (k w b : ℕ) → w < 2 ^ k → bit_or w (b * 2 ^ k) ≡ b * 2 ^ k + w
or_above k w b h = bit_or_comm w (b * 2 ^ k) ∙ bit_or_side_by_side k b w h

-- The byte at `i` if the code may read it.
abbrev pub byte_at : List ℕ → ℕ → ℕ → ℕ
byte_at src available i = if ltb i available then get_or src i 0 else 0

-- The word that is loaded, in plain arithmetic: bytes past `available` count as zero.
pub load_le32_value :
    (src : List ℕ) (n : ℕ)
    → All IsByte src
    → load_le32 src n
      ≡ byte_at src n 0
        + byte_at src n 1 * 2 ^ 8
        + byte_at src n 2 * 2 ^ 16
        + byte_at src n 3 * 2 ^ 24
unfolding load_le32
load_le32_value src n h =
    let a = get_or src 0 0 in
    let b = get_or src 1 0 in
    let c = get_or src 2 0 in
    let d = get_or src 3 0 in
    ground (
      arith,
      get_or-IsByte src 0 h,
      get_or-IsByte src 1 h,
      get_or-IsByte src 2 h,
      get_or-IsByte src 3 h,
      or_above 0 0 a,
      or_above 8 a b,
      or_above 16 (b * 2 ^ 8 + a) c,
      or_above 24 (c * 2 ^ 16 + (b * 2 ^ 8 + a)) d,
    )

-- The bytes of a word, lowest first.
abbrev pub word_bytes : ℕ → List ℕ
word_bytes w = w % 256 ∷ w / 2 ^ 8 % 256 ∷ w / 2 ^ 16 % 256 ∷ w / 2 ^ 24 % 256 ∷ []

store_four :
    (dst : List ℕ) (w n : ℕ)
    → 4 ≤ n
    → store_le32 dst w n
      ≡ set
          (set (set (set dst 0 (u8 w)) 1 (u8 (w / 2 ^ 8))) 2 (u8 (w / 2 ^ 16)))
          3
          (u8 (w / 2 ^ 24))
unfolding store_le32
store_four dst w n h = ground arith

four_writes :
    (dst : List ℕ) (a b c d : ℕ)
    → set (set (set (set dst 0 a) 1 b) 2 c) 3 d ≡ overwrite (a ∷ b ∷ c ∷ d ∷ []) dst
four_writes [] a b c d = refl
four_writes (x ∷ []) a b c d = refl
four_writes (x ∷ y ∷ []) a b c d = refl
four_writes (x ∷ y ∷ z ∷ []) a b c d = refl
four_writes (x ∷ y ∷ z ∷ v ∷ rest) a b c d = refl

store_few :
    (dst : List ℕ) (w n : ℕ) → n < 4 → store_le32 dst w n ≡ overwrite (take n (word_bytes w)) dst
unfolding store_le32
store_few dst w zero h = refl
store_few [] w (suc zero) h = refl
store_few (x ∷ rest) w (suc zero) h = ground arith
store_few [] w (suc (suc zero)) h = refl
store_few (x ∷ []) w (suc (suc zero)) h = ground arith
store_few (x ∷ y ∷ rest) w (suc (suc zero)) h = ground arith
store_few [] w (suc (suc (suc zero))) h = refl
store_few (x ∷ []) w (suc (suc (suc zero))) h = ground arith
store_few (x ∷ y ∷ []) w (suc (suc (suc zero))) h = ground arith
store_few (x ∷ y ∷ z ∷ rest) w (suc (suc (suc zero))) h = ground arith
store_few dst w (suc (suc (suc (suc n)))) h = absurd (omega arith)

-- A store writes the first `available` bytes of the word, lowest first, and nothing else.
pub store_le32-overwrite :
    (dst : List ℕ) (w n : ℕ) → store_le32 dst w n ≡ overwrite (take n (word_bytes w)) dst
store_le32-overwrite dst w zero = store_few dst w 0 (omega arith)
store_le32-overwrite dst w (suc zero) = store_few dst w 1 (omega arith)
store_le32-overwrite dst w (suc (suc zero)) = store_few dst w 2 (omega arith)
store_le32-overwrite dst w (suc (suc (suc zero))) = store_few dst w 3 (omega arith)
store_le32-overwrite dst w (suc (suc (suc (suc n)))) =
    store_four dst w (suc (suc (suc (suc n)))) (omega arith)
    ∙ four_writes dst (u8 w) (u8 (w / 2 ^ 8)) (u8 (w / 2 ^ 16)) (u8 (w / 2 ^ 24))
    ∙ ap (λ t. overwrite t dst)
        (sym (take_all (suc (suc (suc (suc n)))) (word_bytes w) (omega arith)))

pub word_bytes-IsByte : (w : ℕ) → All IsByte (word_bytes w)
word_bytes-IsByte w = omega arith

-- Of a 32-bit word stored in the first `n` bytes of a buffer that has them, `n` at most four, a
-- load of `n` bytes gives back the word cut to those bytes.
pub load-store :
    (dst : List ℕ) (w n : ℕ)
    → n ≤ 4
    → n ≤ length dst
    → IsU32 w
    → All IsByte dst
    → load_le32 (store_le32 dst w n) n ≡ w % 2 ^ (8 * n)
load-store dst w n h4 hn hw hd =
    rw (store_le32-overwrite dst w n)
      (rw (load_le32_value (overwrite (take n (word_bytes w)) dst) n stored) (cut n h4 hn))
  where
    stored : All IsByte (overwrite (take n (word_bytes w)) dst)
    stored =
        All-overwrite IsByte (take n (word_bytes w)) dst
          (All-take IsByte n (word_bytes w) (word_bytes-IsByte w)) hd

    cut :
        (k : ℕ)
        → k ≤ 4
        → k ≤ length dst
        → byte_at (overwrite (take k (word_bytes w)) dst) k 0
            + byte_at (overwrite (take k (word_bytes w)) dst) k 1 * 2 ^ 8
            + byte_at (overwrite (take k (word_bytes w)) dst) k 2 * 2 ^ 16
            + byte_at (overwrite (take k (word_bytes w)) dst) k 3 * 2 ^ 24
          ≡ w % 2 ^ (8 * k)
    cut zero p q = omega arith
    cut (suc zero) p q = ground (arith, get_or-overwrite (take 1 (word_bytes w)) dst 0 0)
    cut (suc (suc zero)) p q = ground (
      arith,
      get_or-overwrite (take 2 (word_bytes w)) dst 0 0,
      get_or-overwrite (take 2 (word_bytes w)) dst 1 0,
    )
    cut (suc (suc (suc zero))) p q = ground (
      arith,
      get_or-overwrite (take 3 (word_bytes w)) dst 0 0,
      get_or-overwrite (take 3 (word_bytes w)) dst 1 0,
      get_or-overwrite (take 3 (word_bytes w)) dst 2 0,
    )
    cut (suc (suc (suc (suc zero)))) p q = ground (
      arith,
      get_or-overwrite (word_bytes w) dst 0 0,
      get_or-overwrite (word_bytes w) dst 1 0,
      get_or-overwrite (word_bytes w) dst 2 0,
      get_or-overwrite (word_bytes w) dst 3 0,
    )
    cut (suc (suc (suc (suc (suc k))))) p q = absurd (omega arith)
