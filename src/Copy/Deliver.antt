-- ===== src/Copy/Deliver.antt =====
-- The inner loop of copy.c delivers all that a round obtained.
use chis_link.Common.{
  ℕ, zero, suc, ◌+◌, ◌-◌, ◌≤◌, ◌<◌, ◌≡◌, refl, sym, ap, ◌∙◌, arith, ◌⊎◌, inl, inr, List, ◌++◌,
  append_assoc, true, false, not, ◌&&◌, ltb, ◌==◌, if◌then◌else◌, Option, none, some, length, take,
  drop, overwrite, length-overwrite, length-drop, length-take, drop_all, append-nil, take-drop-take,
  take-drop-next, take-overwrite, u32, ℤ, neg, is_neg,
}
use mathlib.Core.Path.{ap₂}
use native.Mathlib.Decide.{dec_lt}
use chis_link.Copy.{
  Window, Source, Sink, Options, is_some, call_write, copy_bytes, write_window, write_once,
  Delivered, delivered, deliver,
}
use chis_link.Copy.Bytes.{
  window_bytes, length-window_bytes, take-window_bytes, drop-window_bytes, copy_bytes-overwrite,
}
use chis_link.Copy.Laws.{Writes, WritesWindow, WritesAll, IsFair}

-- The bytes that a round has to deliver.
abbrev pub block : Option Window → ℕ → List ℕ → List ℕ
block none n buffer = take n buffer
block (some window) n buffer = window_bytes window 0 n

window_front :
    (window : Window) (k total n : ℕ)
    → total + k ≤ n
    → take k (drop total (window_bytes window 0 n)) ≡ window_bytes window total k
window_front window k total n h =
    ap (take k) (drop-window_bytes window 0 total n (omega arith))
    ∙ take-window_bytes window (0 + total) k (n - total) (omega arith)
    ∙ ap (λ at. window_bytes window at k) same
  where
    same : 0 + total ≡ total
    same = omega arith

module _ {W : Type 0} (left taken : W → List ℕ) where
  -- What one write leaves.
  abbrev Wrote : Option Window → ℕ → ℕ → List ℕ → W → W × ℤ × ℕ × List ℕ → Type 0
  Wrote window total n buffer w (w', ret, k, buffer') =
      (is_neg ret ≡ false)
      × (1 ≤ k)
      × (total + k ≤ n)
      × (taken w' ≡ taken w ++ take k (drop total (block window n buffer)))
      × (left w' ≡ left w)
      × (length buffer' ≡ length buffer)
      × (block window n buffer' ≡ block window n buffer)

  write_buffer :
      (o : Option (List ℕ → ℕ → W → W × ℤ × ℕ)) (total n : ℕ) (buffer : List ℕ) (w : W)
      → is_some o ≡ true
      → Writes left taken o
      → total < n
      → n ≤ length buffer
      → Wrote none total n buffer w (
          let (w', ret, written) = call_write o (drop total buffer) (n - total) w in
          (w', ret, written, buffer))
  write_buffer none total n buffer w s law h hn = absurd (ground arith)
  write_buffer (some write) total n buffer w s law h hn =
      let wrote =
        law (drop total buffer) (n - total) w (omega arith)
          (omega (arith, length-drop total buffer)) in
      (
        wrote.0,
        wrote.1,
        omega (arith, wrote),
        wrote.3
            ∙ ap (λ t. taken w ++ t)
                (sym (
                  take-drop-take (write (drop total buffer) (n - total) w).2 total n buffer
                    (omega (arith, wrote)))),
        wrote.4,
        refl,
        refl,
      )

  write_direct :
      (write : Window → ℕ → ℕ → W → W × ℤ × ℕ) (window : Window) (total n : ℕ) (buffer : List ℕ)
      (w : W)
      → WritesWindow left taken (some write)
      → total < n
      → n ≡ window.length
      → Wrote
          (some window)
          total
          n
          buffer
          w
          (let (w', ret, written) = write window total (n - total) w in (w', ret, written, buffer))
  write_direct write window total n buffer w law h hn =
      let wrote = law window total (n - total) w (omega arith) (omega arith) in
      (
        wrote.0,
        wrote.1,
        omega (arith, wrote),
        wrote.3
            ∙ ap (λ t. taken w ++ t)
                (sym (
                  window_front window (write window total (n - total) w).2 total n
                    (omega (arith, wrote)))),
        wrote.4,
        refl,
        refl,
      )

  -- A window that is copied through the buffer, to a sink that takes all it is given.
  write_copied :
      (o : Option (List ℕ → ℕ → W → W × ℤ × ℕ)) (block_size : ℕ) (window : Window) (total n : ℕ)
      (buffer : List ℕ) (w : W)
      → is_some o ≡ true
      → Writes left taken o
      → WritesAll left taken o
      → total < n
      → n ≤ length buffer
      → n ≤ block_size
      → Wrote (some window) total n buffer w (
          let to_copy = (if ltb block_size (n - total) then block_size else n - total) in
          let buffer' = copy_bytes window to_copy total 0 buffer in
          let (w', ret, written) = call_write o buffer' to_copy w in
          (
            w',
            (if not (is_neg ret) && not (written == to_copy) then neg 3 else ret),
            written,
            buffer',
          ))
  write_copied none block_size window total n buffer w s law all h hn hb = absurd (ground arith)
  write_copied (some write) block_size window total n buffer w s law all h hn hb =
      rw (sized, copied)
        (
          accepted (write bytes m w).1 (write bytes m w).2 wrote.0 e,
          wrote.1,
          omega (arith, wrote),
          wrote.3
              ∙ ap (λ t. taken w ++ t)
                  (ap (λ k. take k bytes) e
                    ∙ front
                    ∙ sym (window_front window m total n (omega arith))
                    ∙ ap (λ k. take k (drop total (window_bytes window 0 n))) (sym e)),
          wrote.4,
          length-overwrite (window_bytes window total m) buffer,
          refl,
        )
    where
      m : ℕ
      m = n - total

      bytes : List ℕ
      bytes = overwrite (window_bytes window total (n - total)) buffer

      fits : length (window_bytes window total (n - total)) ≤ length buffer
      fits = omega (arith, length-window_bytes window total (n - total))

      front : take (n - total) bytes ≡ window_bytes window total (n - total)
      front =
          ap (λ k. take k bytes) (sym (length-window_bytes window total (n - total)))
          ∙ take-overwrite (window_bytes window total (n - total)) buffer fits

      wrote :
          let (w', ret, k) = write bytes (n - total) w in
          (is_neg ret ≡ false)
          × (1 ≤ k)
          × (k ≤ n - total)
          × (taken w' ≡ taken w ++ take k bytes)
          × (left w' ≡ left w)
      wrote =
          law bytes (n - total) w (omega arith)
            (omega (arith, length-overwrite (window_bytes window total (n - total)) buffer))

      e : (write bytes (n - total) w).2 ≡ n - total
      e =
          all bytes (n - total) w (omega arith)
            (omega (arith, length-overwrite (window_bytes window total (n - total)) buffer))

      accepted :
          (ret : ℤ) (k : ℕ)
          → is_neg ret ≡ false
          → k ≡ n - total
          → is_neg (if not (is_neg ret) && not (k == n - total) then neg 3 else ret) ≡ false
      accepted ret k hr hk = ground arith

      sized : (if ltb block_size (n - total) then block_size else n - total) ≡ n - total
      sized = ground arith

      copied :
          copy_bytes window (n - total) total 0 buffer
          ≡ overwrite (window_bytes window total (n - total)) buffer
      copied = copy_bytes-overwrite window (n - total) total buffer (omega arith)

module _ {W : Type 0} (left taken : W → List ℕ) (source : Source W) (sink : Sink W)
    (options : Options W) (fair : IsFair left taken source sink options) where
  -- The buffer has room for what is obtained, and a window is as long as what is obtained.
  abbrev pub Fits : ℕ → Option Window → ℕ → List ℕ → Type 0
  Fits block_size none n buffer = n ≤ length buffer
  Fits block_size (some window) n buffer =
      (n ≡ window.length)
      × (n ≤ block_size)
      × (n ≤ length buffer)
      × ((is_some sink.direct_write ≡ true) ⊎ WritesAll left taken sink.write)

  window_Wrote :
      (o : Option (Window → ℕ → ℕ → W → W × ℤ × ℕ)) (block_size : ℕ) (window : Window) (total n : ℕ)
      (buffer : List ℕ) (w : W)
      → WritesWindow left taken o
      → (is_some o ≡ true) ⊎ WritesAll left taken sink.write
      → total < n
      → (n ≡ window.length) × (n ≤ block_size) × (n ≤ length buffer)
      → Wrote left taken
          (some window)
          total
          n
          buffer
          w
          (write_window sink o block_size window total n buffer w)
  unfolding write_window
  window_Wrote (some write) block_size window total n buffer w law either h fits =
      write_direct left taken write window total n buffer w law h fits.0
  window_Wrote none block_size window total n buffer w law (inl e) h fits = absurd (ground arith)
  window_Wrote none block_size window total n buffer w law (inr all) h fits =
      write_copied left taken sink.write block_size window total n buffer w fair.can_write
        fair.writes all h fits.2 fits.1

  write_once-Wrote :
      (block_size : ℕ) (window : Option Window) (total n : ℕ) (buffer : List ℕ) (w : W)
      → Fits block_size window n buffer
      → total < n
      → Wrote left taken window total n buffer w
          (write_once sink block_size window total n buffer w)
  unfolding write_once
  write_once-Wrote block_size none total n buffer w fits h =
      write_buffer left taken sink.write total n buffer w fair.can_write fair.writes h fits
  write_once-Wrote block_size (some window) total n buffer w fits h =
      window_Wrote sink.direct_write block_size window total n buffer w fair.writes_window fits.3 h
        (fits.0, fits.1, fits.2)

  Fits-length :
      (block_size : ℕ) (window : Option Window) (n : ℕ) (buffer buffer' : List ℕ)
      → length buffer' ≡ length buffer
      → Fits block_size window n buffer
      → Fits block_size window n buffer'
  Fits-length block_size none n buffer buffer' e fits = omega arith
  Fits-length block_size (some window) n buffer buffer' e fits =
      (fits.0, fits.1, omega arith, fits.3)

  -- What the inner loop leaves.
  abbrev pub Delivers : Option Window → ℕ → ℕ → List ℕ → W → Delivered W → Type 0
  Delivers window n total buffer w r =
      (w' : W) × (buffer' : List ℕ) × (r ≡ delivered w' buffer')
      × (taken w' ≡ taken w ++ drop total (block window n buffer))
      × (left w' ≡ left w)
      × (length buffer' ≡ length buffer)

  length-block :
      (block_size : ℕ) (window : Option Window) (n : ℕ) (buffer : List ℕ)
      → Fits block_size window n buffer
      → length (block window n buffer) ≡ n
  length-block block_size none n buffer fits = omega (arith, length-take n buffer)
  length-block block_size (some window) n buffer fits = length-window_bytes window 0 n

  chosen :
      (total n k : ℕ) (ret : ℤ) (x y z r : Delivered W)
      → total < n
      → is_neg ret ≡ false
      → 1 ≤ k
      → (if not (ltb total n) then x else if is_neg ret then y else if k == 0 then z else r) ≡ r
  chosen total n k ret x y z r h e hk = ground arith

  all_delivered :
      (block_size : ℕ) (window : Option Window) (n total : ℕ) (buffer : List ℕ) (w : W)
      (r : Delivered W)
      → Fits block_size window n buffer
      → n ≤ total
      → r ≡ delivered w buffer
      → Delivers window n total buffer w r
  all_delivered block_size window n total buffer w r fits h e = (
    w,
    buffer,
    e,
    sym (
        ap (λ t. taken w ++ t)
          (drop_all total (block window n buffer)
            (omega (arith, length-block block_size window n buffer fits)))
        ∙ append-nil (taken w)),
    refl,
    refl,
  )

  pub deliver-Delivers :
      (fuel block_size : ℕ) (window : Option Window) (n total : ℕ) (buffer : List ℕ) (w : W)
      → Fits block_size window n buffer
      → n < 4294967296
      → n ≤ total + fuel
      → total ≤ n
      → Delivers window n total buffer w
          (deliver fuel source sink block_size window n total buffer w)
  unfolding deliver
  deliver-Delivers zero block_size window n total buffer w fits small enough h =
      all_delivered block_size window n total buffer w _ fits (omega arith) (ground arith)
  deliver-Delivers (suc fuel) block_size window n total buffer w fits small enough h =
      elim (dec_lt total n) [
        | no p ↦
            all_delivered block_size window n total buffer w _ fits (omega arith) (ground arith)
        | yes p ↦
            let (w', ret, k, buffer') = write_once sink block_size window total n buffer w in
            let wrote = write_once-Wrote block_size window total n buffer w fits p in
            let wraps : u32 (total + k) ≡ total + k = omega (arith, wrote) in
            let (w'', buffer'', e, t, l, len) =
              deliver-Delivers fuel block_size window n (total + k) buffer' w'
                (Fits-length block_size window n buffer buffer' wrote.5 fits) small
                (omega (arith, wrote)) (omega (arith, wrote)) in
            (
              w'',
              buffer'',
              chosen total n k ret _ _ _ _ p wrote.0 wrote.1
                  ∙ ap (λ m. deliver fuel source sink block_size window n m buffer' w') wraps
                  ∙ e,
              t
                  ∙ ap₂ (λ a b. a ++ drop (total + k) b) wrote.3 wrote.6
                  ∙ append_assoc (taken w) (take k (drop total (block window n buffer)))
                      (drop (total + k) (block window n buffer))
                  ∙ ap (λ b. taken w ++ b) (take-drop-next k total (block window n buffer)),
              l ∙ wrote.4,
              len ∙ wrote.5,
            )
      ]
