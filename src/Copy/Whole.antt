-- ===== src/Copy/Whole.antt =====
-- A whole copy between callbacks that keep their promises: it ends, and everything arrives.
use chis_link.Common.{
  ℕ, zero, suc, ◌+◌, ◌-◌, ◌^◌, ◌≤◌, ◌<◌, ◌≡◌, refl, sym, ap, ◌∙◌, arith, ◌⊎◌, List, [], ◌∷◌, ◌++◌,
  append_assoc, append-nil, false, not, ◌&&◌, leb, ◌==◌, if_elim, Option, none, some, length,
  length-drop, take, drop, take-append-drop, ℤ, neg, is_neg,
}
use mathlib.Core.Path.{ap₂, subst}
use chis_link.Copy.{
  Window, Source, Sink, Options, call_if, finish_window, report, Obtained, stop, failed, got,
  obtain, Delivered, deliver, u64, wanted, Round, starved, returns, leaves, goes_on, after_delivery,
  round, conclude, copy_loop, copy_buffer, copy_stream, choose_block_size,
}
use chis_link.Copy.Laws.{Keeps, Releases, Reports, IsFair}
use chis_link.Copy.Deliver.{Delivers, deliver-Delivers}
use chis_link.Copy.Obtain.{Gets, obtain-Gets}
use chis_link.Copy.Block.{choose_block_size_lem}

abbrev or_empty : Option (List ℕ) → List ℕ
or_empty none = []
or_empty (some xs) = xs

module _ {W : Type 0} (left taken : W → List ℕ) (source : Source W) (sink : Sink W)
    (options : Options W) (fair : IsFair left taken source sink options) where
  call_if-Keeps :
      (o : Option (W → W × ℤ)) (w : W)
      → Releases left taken o
      → (is_neg (call_if o w).1 ≡ false) × Keeps left taken w (call_if o w).0
  call_if-Keeps none w law = (refl, (refl, refl))
  call_if-Keeps (some callback) w law = law w

  report-Keeps :
      (o : Option (ℕ → ℕ → W → W × ℤ)) (done size : ℕ) (w : W)
      → Reports left taken o
      → (is_neg (report o done size w).1 ≡ false) × Keeps left taken w (report o done size w).0
  report-Keeps none done size w law = (refl, (refl, refl))
  report-Keeps (some progress) done size w law = law done size w

  finish_window-Keeps :
      (window : Option Window) (w : W)
      → (is_neg (finish_window source window w).1 ≡ false)
        × Keeps left taken w (finish_window source window w).0
  finish_window-Keeps none w = (refl, (refl, refl))
  finish_window-Keeps (some window) w = call_if-Keeps source.release_direct w fair.releases

  -- A round moves some bytes from the source to the sink, or finds that none are left.
  abbrev Moves : ℕ → ℕ → List ℕ → W → Round W → Type 0
  Moves block_size done buffer w starved = ⊥
  Moves block_size done buffer w (returns w' code) = ⊥
  Moves block_size done buffer w (leaves w') = (left w ≡ []) × Keeps left taken w w'
  Moves block_size done buffer w (goes_on w' buffer' done') =
      (n : ℕ) × (1 ≤ n)
      × (n ≤ block_size)
      × (n ≤ length (left w))
      × (done' ≡ u64 (done + n))
      × (left w' ≡ drop n (left w))
      × (taken w' ≡ taken w ++ take n (left w))
      × (length buffer' ≡ length buffer)

  after-Moves :
      (block_size done n : ℕ) (window : Option Window) (buffer buffer' : List ℕ) (w w' : W)
      (r : Delivered W)
      → Gets left taken source sink options fair block_size buffer w (got w' buffer' window n)
      → Delivers left taken source sink options fair window n 0 buffer' w' r
      → Moves block_size done buffer w (after_delivery source options window n done r)
  unfolding after_delivery
  after-Moves block_size done n window buffer buffer' w w' r g (w2, buffer2, e, t, l, len) =
      let (w3, ret) = finish_window source window w2 in
      let finished = finish_window-Keeps window w2 in
      let (w4, ret') = report options.progress (u64 (done + n)) source.size w3 in
      let reported = report-Keeps options.progress (u64 (done + n)) source.size w3 fair.reports in
      subst (λ d. Moves block_size done buffer w (after_delivery source options window n done d))
        (sym e)
        (if_elim (Moves block_size done buffer w) (is_neg ret) _ _
          (λ b. absurd (ground (arith, b, finished.0)))
          (λ _.
            if_elim (Moves block_size done buffer w) (is_neg ret') _ _
              (λ b. absurd (ground (arith, b, reported.0)))
              (λ _. (
                n,
                g.0,
                g.1,
                g.2,
                refl,
                reported.1.0 ∙ finished.1.0 ∙ l ∙ g.4,
                reported.1.1 ∙ finished.1.1 ∙ t ∙ ap₂ (λ a b. a ++ b) g.5 g.3,
                len ∙ g.6,
              ))))

  obtained-Moves :
      (block_size done : ℕ) (buffer : List ℕ) (w : W) (o : Obtained W)
      → block_size < 4294967296
      → Gets left taken source sink options fair block_size buffer w o
      → Moves block_size done buffer w (elim o [
        | stop w' ↦ leaves w'
        | failed w' code ↦ returns w' code
        | got w' buffer' window n ↦
            after_delivery source options window n done
              (deliver n source sink block_size window n 0 buffer' w')
      ])
  obtained-Moves block_size done buffer w (stop w') small g = g
  obtained-Moves block_size done buffer w (failed w' code) small g = g
  obtained-Moves block_size done buffer w (got w' buffer' window n) small g =
      after-Moves block_size done n window buffer buffer' w w'
        (deliver n source sink block_size window n 0 buffer' w') g
        (deliver-Delivers left taken source sink options fair n block_size window n 0 buffer' w' g.7
          (omega (arith, g)) (omega arith) (omega arith))

  round-Moves :
      (block_size done : ℕ) (buffer : List ℕ) (w : W)
      → 1 ≤ block_size
      → block_size < 4294967296
      → block_size ≤ length buffer
      → (source.size ≡ 0) ⊎ (done < source.size)
      → Moves block_size done buffer w (round source sink options block_size done buffer w)
  unfolding round
  round-Moves block_size done buffer w h small room more =
      obtained-Moves block_size done buffer w
        (obtain source (wanted source.size block_size done) buffer w) small
        (obtain-Gets left taken source sink options fair block_size
          (wanted source.size block_size done) buffer w (ground arith) (ground arith)
          (ground arith))

  -- The loop comes to its end with everything moved, having counted `total` bytes.
  abbrev Completes : ℕ → W → Option (W × ℤ) → Type 0
  Completes total w r =
      (w' : W) × (r ≡ some (conclude source sink options total w'))
      × (left w' ≡ [])
      × (taken w' ≡ taken w ++ left w)

  -- The count and what is left make the total, which the announced size is not below.
  abbrev Counts : ℕ → ℕ → W → Type 0
  Counts total done w =
      (total ≡ done + length (left w))
      × (total < 2 ^ 64)
      × ((source.size ≡ 0) ⊎ (total ≤ source.size))

  empty-Completes :
      (total done : ℕ) (w w' : W) (r : Option (W × ℤ))
      → Counts total done w
      → left w ≡ []
      → Keeps left taken w w'
      → r ≡ some (conclude source sink options done w')
      → Completes total w r
  empty-Completes total done w w' r counts e keeps er = (
    w',
    er ∙ ap (λ k. some (conclude source sink options k w')) same,
    keeps.0 ∙ e,
    keeps.1 ∙ sym (ap (λ t. taken w ++ t) e ∙ append-nil (taken w)),
  )
    where
      none_left : length (left w) ≡ 0
      none_left = ap length e

      same : done ≡ total
      same = omega (arith, none_left, counts)

  moved-Completes :
      (fuel block_size total done : ℕ) (buffer : List ℕ) (w : W) (r : Round W)
      → ((done' : ℕ) (buffer' : List ℕ) (w' : W)
          → length buffer' ≡ length buffer
          → Counts total done' w'
          → length (left w') < length (left w)
          → Completes total w' (copy_loop fuel source sink options block_size done' buffer' w'))
      → Counts total done w
      → Moves block_size done buffer w r
      → Completes total w (elim r [
        | starved ↦ none
        | returns w' code ↦ some (w', code)
        | leaves w' ↦ some (conclude source sink options done w')
        | goes_on w' buffer' done' ↦ copy_loop fuel source sink options block_size done' buffer' w'
      ])
  moved-Completes fuel block_size total done buffer w starved ih counts moves = absurd moves
  moved-Completes fuel block_size total done buffer w (returns w' code) ih counts moves =
      absurd moves
  moved-Completes fuel block_size total done buffer w (leaves w') ih counts moves =
      empty-Completes total done w w' _ counts moves.0 moves.1 refl
  moved-Completes fuel block_size total done buffer w (goes_on w' buffer' done') ih counts
        (n, p1, p2, p3, ed, el, et, len) =
      let (w2, e, l, t) =
        ih done' buffer' w' len (omega (arith, ed, fewer, counts), counts.1, counts.2)
          (omega (arith, fewer)) in
      (
        w2,
        e,
        l,
        t
            ∙ ap₂ (λ a b. a ++ b) et el
            ∙ append_assoc (taken w) (take n (left w)) (drop n (left w))
            ∙ ap (λ b. taken w ++ b) (take-append-drop n (left w)),
      )
    where
      fewer : length (left w') ≡ length (left w) - n
      fewer = ap length el ∙ length-drop n (left w)

  copy_loop-Completes :
      (fuel block_size total done : ℕ) (buffer : List ℕ) (w : W)
      → 1 ≤ block_size
      → block_size < 4294967296
      → block_size ≤ length buffer
      → Counts total done w
      → length (left w) < fuel
      → Completes total w (copy_loop fuel source sink options block_size done buffer w)
  unfolding copy_loop
  copy_loop-Completes zero block_size total done buffer w h small room counts f =
      absurd (omega arith)
  copy_loop-Completes (suc fuel) block_size total done buffer w h small room counts f =
      if_elim (Completes total w) (not (source.size == 0) && leb source.size done) _ _
        (λ b.
          empty-Completes total done w w _ counts (none_left (left w) (ground (arith, b, counts)))
            (refl, refl) refl)
        (λ b.
          moved-Completes fuel block_size total done buffer w
            (round source sink options block_size done buffer w)
            (λ done' buffer' w' len counts' fewer.
              copy_loop-Completes fuel block_size total done' buffer' w' h small
                (omega (arith, len)) counts' (omega arith))
            counts (round-Moves block_size done buffer w h small room (ground (arith, b))))
    where
      none_left : (xs : List ℕ) → length xs ≡ 0 → xs ≡ []
      none_left [] e = refl
      none_left (x ∷ xs) e = absurd (omega arith)

  pub conclude-Keeps :
      (total : ℕ) (w : W)
      → (source.size ≡ 0) ⊎ (source.size ≡ total)
      → (is_neg (conclude source sink options total w).1 ≡ false)
        × Keeps left taken w (conclude source sink options total w).0
  unfolding conclude
  conclude-Keeps total w size =
      if_elim P (not (source.size == 0) && not (total == source.size)) _ _
        (λ b. absurd (ground (arith, b, size)))
        (λ _.
          if_elim P options.flush_on_finish _ _ (λ _. call_if-Keeps sink.flush w fair.flushes)
            (λ _. (refl, (refl, refl))))
    where
      P : W × ℤ → Type 0
      P r = (is_neg r.1 ≡ false) × Keeps left taken w r.0

  copy_buffer-Completes :
      (fuel : ℕ) (o : Option (List ℕ)) (buffer : List ℕ) (w : W)
      → o ≡ some buffer
      → options.buffer_size ≡ length buffer
      → 4 ≤ options.buffer_size
      → 4 ≤ choose_block_size source sink options
      → Counts (length (left w)) 0 w
      → length (left w) < fuel
      → Completes (length (left w)) w (copy_buffer fuel source sink options o w)
  unfolding copy_buffer
  copy_buffer-Completes fuel none buffer w eb es big large counts f = absurd (ground (arith, eb))
  copy_buffer-Completes fuel (some b) buffer w eb es big large counts f =
      let size = choose_block_size source sink options in
      let chosen = choose_block_size_lem source sink options in
      subst (Completes (length (left w)) w) (sym (ground (arith, fair.can_read, fair.can_write))) (
        copy_loop-Completes fuel size (length (left w)) 0 b w (omega (arith, large))
          (omega (arith, chosen)) (omega (arith, chosen, room)) counts f)
    where
      room : options.buffer_size ≡ length b
      room = es ∙ sym (ap (λ o. length (or_empty o)) eb)

-- Between callbacks that keep their promises, with a buffer of its declared size and a block size
-- of at least four, a copy from a source that announces nothing or exactly what it gives ends,
-- given more rounds than bytes, with a result that is not negative; the source is then empty and
-- the sink has taken all its bytes in order.
pub copy_stream_whole :
    {W : Type 0} (left taken : W → List ℕ) (source : Source W) (sink : Sink W) (options : Options W)
    (fuel : ℕ) (buffer : List ℕ) (w : W)
    → IsFair left taken source sink options
    → options.buffer ≡ some buffer
    → options.buffer_size ≡ length buffer
    → 4 ≤ options.buffer_size
    → 4 ≤ choose_block_size source sink options
    → (source.size ≡ 0) ⊎ (source.size ≡ length (left w))
    → length (left w) < 2 ^ 64
    → length (left w) < fuel
    → (w' : W) × (ret : ℤ) × (copy_stream fuel source sink options w ≡ some (w', ret))
      × (is_neg ret ≡ false)
      × (left w' ≡ [])
      × (taken w' ≡ taken w ++ left w)
copy_stream_whole left taken source sink options fuel buffer w fair eb es big large size small f =
    let (w', e, l, t) =
      copy_buffer-Completes left taken source sink options fair fuel options.buffer buffer w eb es
        big large (omega arith, small, omega arith) f in
    let flushed = conclude-Keeps left taken source sink options fair (length (left w)) w' size in
    (
      (conclude source sink options (length (left w)) w').0,
      (conclude source sink options (length (left w)) w').1,
      e,
      flushed.0,
      flushed.1.0 ∙ l,
      flushed.1.1 ∙ t,
    )

-- Between callbacks that keep their promises, with a buffer of its declared size and a block size
-- of at least four, a copy from a source that announces more than it gives ends, given more rounds
-- than bytes, with -6, and what it gave has arrived in order.
pub copy_stream_short :
    {W : Type 0} (left taken : W → List ℕ) (source : Source W) (sink : Sink W) (options : Options W)
    (fuel : ℕ) (buffer : List ℕ) (w : W)
    → IsFair left taken source sink options
    → options.buffer ≡ some buffer
    → options.buffer_size ≡ length buffer
    → 4 ≤ options.buffer_size
    → 4 ≤ choose_block_size source sink options
    → length (left w) < source.size
    → source.size < 2 ^ 64
    → length (left w) < fuel
    → (w' : W) × (copy_stream fuel source sink options w ≡ some (w', neg 6))
      × (left w' ≡ [])
      × (taken w' ≡ taken w ++ left w)
copy_stream_short {W = W} left taken source sink options fuel buffer w fair eb es big large size
      small f =
    let (w', e, l, t) =
      copy_buffer-Completes left taken source sink options fair fuel options.buffer buffer w eb es
        big large (omega arith, omega arith, omega arith) f in
    (w', e ∙ ap (λ r. some r) (ends w'), l, t)
  where
    ends : (v : W) → conclude source sink options (length (left w)) v ≡ (v, neg 6)
    ends v = unfold conclude in ground arith
