-- ===== src/CartFile/Writing.antt =====
-- Which slots of its table a call of cart_file.c writes.
use chis_link.Common.{
  ℕ, ◌+◌, ◌-◌, ◌≡◌, ◌⊎◌, inl, inr, refl, ap, List, Bool, true, false, not, ◌||◌, ltb, leb, ◌==◌,
  if◌then◌else◌, if_elim, Option, none, some, set, ℤ, is_neg,
}
use chis_link.CartFile.{
  Slot, Cart, Window, open_read, open_write, info_bytes, has_flag, is_zero, is_info,
}
use chis_link.CartFile.Open.{
  slot_from_local, close, ensure_info, fstat, put_slot, call_kind, is_some, FileStat,
}
use chis_link.CartFile.Access.{
  Reading, null_data, bytes_of, u64, read_info, advance, read_slot, read, null_window, take_window,
  direct_read, release_direct, write, seek, truncate, flush,
}
use chis_link.CartFile.Handles.{ensure_info-slots}

-- The slots stay, or the one behind a live handle is written.
abbrev pub Writes : List Slot → ℕ → List Slot → Type 0
Writes slots local slots' =
    (slots' ≡ slots)
    ⊎ ((s x : Slot) × (slot_from_local slots local ≡ some s) × (slots' ≡ set slots (local - 1) x))

-- The same, and the slot has no window outstanding.
abbrev pub WritesFree : List Slot → ℕ → List Slot → Type 0
WritesFree slots local slots' =
    (slots' ≡ slots)
    ⊎ ((s x : Slot) × (slot_from_local slots local ≡ some s)
        × (s.direct_active ≡ false)
        × (slots' ≡ set slots (local - 1) x))

-- A function of a value that may be there.
pub by_option {ℓ κ} :
    {A : Type 0} {R : Type κ} (P : R → Type ℓ) (o : Option A) (x : R) (f : A → R)
    → P x
    → ((s : A) → o ≡ some s → P (f s))
    → P (elim o [ none ↦ x | some s ↦ f s ])
by_option P none x f p q = p
by_option P (some s) x f p q = q s refl

module _ {W : Type 0} (cart : Cart W) (local : ℕ) where
  -- The slot is written back where a test holds, on a cart with the same slots.
  written_if :
      (b : Bool) (c : Cart W) (s x : Slot)
      → c.slots ≡ cart.slots
      → slot_from_local cart.slots local ≡ some s
      → s.direct_active ≡ false
      → WritesFree cart.slots local (if b then put_slot c local x else c).slots
  written_if true c s x q e f = inr (s, x, e, f, ap (λ k. set k (local - 1) x) q)
  written_if false c s x q e f = inl q

  pub seek-WritesFree : (offset : ℕ) → WritesFree cart.slots local (seek cart local offset).0.slots
  unfolding seek
  seek-WritesFree offset =
      let P = λ (r : Cart W × ℤ). WritesFree cart.slots local r.0.slots in
      by_option P (slot_from_local cart.slots local) _ _ (inl refl)
        (λ s e. if_elim P s.direct_active _ _ (λ _. inl refl) (λ f. inr (s, _, e, f, refl)))

  pub flush-WritesFree : WritesFree cart.slots local (flush cart local).0.slots
  unfolding flush
  flush-WritesFree =
      let P = λ (r : Cart W × ℤ). WritesFree cart.slots local r.0.slots in
      by_option P (slot_from_local cart.slots local) _ _ (inl refl) (λ s e.
        if_elim P s.direct_active _ _ (λ _. inl refl)
          (λ f.
            if_elim P (not (is_some cart.driver.flush) || is_info s.kind) _ _ (λ _. inl refl)
              (λ _.
                let (world, ret) = call_kind cart.driver.flush s.kind cart.world in
                written_if (is_zero ret) (record cart { world = world }) s
                  (record s { flushed = true }) refl e f)))

  pub truncate-WritesFree :
      (size : ℕ) → WritesFree cart.slots local (truncate cart local size).0.slots
  unfolding truncate
  truncate-WritesFree size =
      let P = λ (r : Cart W × ℤ). WritesFree cart.slots local r.0.slots in
      by_option P (slot_from_local cart.slots local) _ _ (inl refl) (λ s e.
        if_elim P (not (has_flag s.flags open_write) || is_info s.kind) _ _ (λ _. inl refl)
          (λ _.
            if_elim P s.direct_active _ _ (λ _. inl refl)
              (λ f.
                by_option P cart.driver.set_size _ _ (inr (s, _, e, f, refl))
                  (λ callback _. inr (s, _, e, f, refl)))))

  pub write-WritesFree :
      (src : Option (List ℕ)) (n : ℕ) → WritesFree cart.slots local (write cart local src n).0.slots
  unfolding write
  write-WritesFree src n =
      let P = λ (r : Cart W × ℤ × ℕ). WritesFree cart.slots local r.0.slots in
      if_elim P (null_data src n) _ _ (λ _. inl refl)
        (λ _. by_option P (slot_from_local cart.slots local) _ _ (inl refl) (λ s e.
          if_elim P (not (has_flag s.flags open_write) || is_info s.kind) _ _ (λ _. inl refl)
            (λ _.
              if_elim P s.direct_active _ _ (λ _. inl refl)
                (λ f. by_option P cart.driver.write _ _ (inl refl) (λ callback _.
                  let (world, ret, out_length) =
                    callback s.kind s.offset (bytes_of src) n cart.world in
                  written_if (is_zero ret) (record cart { world = world }) s
                    (record s {
                      offset = u64 (s.offset + out_length);
                      flushed = if not (out_length == 0) then false else s.flushed;
                    })
                    refl e f)))))

  advance-WritesFree :
      (s : Slot) (r : Reading W)
      → r.cart.slots ≡ cart.slots
      → slot_from_local cart.slots local ≡ some s
      → s.direct_active ≡ false
      → WritesFree cart.slots local (advance local s r).cart.slots
  advance-WritesFree s r q e f =
      let x = record s { offset = u64 (s.offset + r.out_length) } in
      if_elim (λ (t : Reading W). WritesFree cart.slots local t.cart.slots) (is_zero r.result) _ r
        (λ _. inr (s, x, e, f, ap (λ k. set k (local - 1) x) q)) (λ _. inl q)

  read_info-slots :
      (offset : ℕ) (dst : List ℕ) (n : ℕ) → (read_info cart offset dst n).cart.slots ≡ cart.slots
  unfolding read_info
  read_info-slots offset dst n =
      let P = λ (t : Reading W). t.cart.slots ≡ cart.slots in
      let q = ensure_info-slots cart in
      if_elim P (is_neg (ensure_info cart).1) _ _ (λ _. q)
        (λ _. if_elim P (leb info_bytes offset) _ _ (λ _. q) (λ _. q))

  pub read-WritesFree :
      (dst : Option (List ℕ)) (n : ℕ)
      → WritesFree cart.slots local (read cart local dst n).cart.slots
  unfolding read read_slot
  read-WritesFree dst n =
      let P = λ (t : Reading W). WritesFree cart.slots local t.cart.slots in
      if_elim P (null_data dst n) _ _ (λ _. inl refl)
        (λ _. by_option P (slot_from_local cart.slots local) _ _ (inl refl) (λ s e.
          if_elim P (not (has_flag s.flags open_read)) _ _ (λ _. inl refl)
            (λ _.
              if_elim P s.direct_active _ _ (λ _. inl refl)
                (λ f.
                  if_elim P (is_info s.kind) _ _
                    (λ _.
                      advance-WritesFree s (read_info cart s.offset (bytes_of dst) n)
                        (read_info-slots s.offset (bytes_of dst) n) e f)
                    (λ _. by_option P cart.driver.read _ _ (inl refl) (λ callback _.
                      let (world, ret, dst', out_length) =
                        callback s.kind s.offset (bytes_of dst) n cart.world in
                      let r : Reading W = record {
                        cart = record cart { world = world };
                        result = ret;
                        dst = dst';
                        out_length = out_length;
                      } in
                      advance-WritesFree s r refl e f))))))

  -- A window that is too long goes back, if it has bytes.
  given_back :
      (b : Bool) (world world' : W)
      → (if b then record cart { world = world } else record cart { world = world' }).slots
        ≡ cart.slots
  given_back true world world' = refl
  given_back false world world' = refl

  pub direct_read-WritesFree :
      (n : ℕ) → WritesFree cart.slots local (direct_read cart local n).0.slots
  unfolding direct_read take_window
  direct_read-WritesFree n =
      let P = λ (r : Cart W × ℤ × Window). WritesFree cart.slots local r.0.slots in
      by_option P (slot_from_local cart.slots local) _ _ (inl refl) (λ s e.
        if_elim P (not (has_flag s.flags open_read) || is_info s.kind) _ _ (λ _. inl refl)
          (λ _.
            if_elim P s.direct_active _ _ (λ _. inl refl)
              (λ f. by_option P cart.driver.direct_read _ _ (inl refl) (λ callback _.
                let (world, ret, window) = callback s.kind s.offset n cart.world in
                if_elim P (is_neg ret) _ _ (λ _. inl refl)
                  (λ _.
                    if_elim P (null_window window) _ _ (λ _. inl refl)
                      (λ _.
                        if_elim P (ltb n window.length) _ _
                          (λ _. inl (given_back (not (window.length == 0)) _ world))
                          (λ _. inr (s, _, e, f, refl))))))))

  pub release_direct-Writes : Writes cart.slots local (release_direct cart local).0.slots
  unfolding release_direct
  release_direct-Writes =
      let P = λ (r : Cart W × ℤ). Writes cart.slots local r.0.slots in
      by_option P (slot_from_local cart.slots local) _ _ (inl refl) (λ s e.
        if_elim P (not s.direct_active) _ _ (λ _. inl refl)
          (λ _.
            let (world, ret) = call_kind cart.driver.release_direct s.kind cart.world in
            let c = record cart { world = world } in
            let x = record s { direct_active = false } in
            if_elim (λ (k : Cart W). Writes cart.slots local k.slots) (is_zero ret)
              (put_slot c local x) c (λ _. inr (s, x, e, refl)) (λ _. inl refl)))

  pub close-Writes : Writes cart.slots local (close cart local).0.slots
  unfolding close
  close-Writes =
      by_option (λ (r : Cart W × ℤ). Writes cart.slots local r.0.slots)
        (slot_from_local cart.slots local) _ _ (inl refl) (λ s e. inr (s, _, e, refl))

  pub fstat-slots : (fstat cart local).0.slots ≡ cart.slots
  unfolding fstat
  fstat-slots =
      let P = λ (r : Cart W × ℤ × Option FileStat). r.0.slots ≡ cart.slots in
      let q = ensure_info-slots cart in
      by_option P (slot_from_local cart.slots local) _ _ refl
        (λ s e. if_elim P (is_neg (ensure_info cart).1) _ _ (λ _. q) (λ _. q))
