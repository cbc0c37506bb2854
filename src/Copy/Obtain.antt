-- ===== src/Copy/Obtain.antt =====
-- What a round of copy.c obtains from a source that keeps its promises.
use chis_link.Common.{
  ℕ, ◌≤◌, ◌≡◌, refl, sym, ap, ◌∙◌, arith, ◌⊎◌, inl, inr, List, [], Bool, true, false, not, ◌&&◌,
  ltb, ◌==◌, if◌then◌else◌, Option, none, some, length, take, drop, ℤ, is_neg,
}
use mathlib.Core.Path.{subst}
use chis_link.Copy.{
  Window, Source, Sink, Options, is_some, Obtained, stop, failed, got, read_buffer, read_window,
  obtain,
}
use chis_link.Copy.Laws.{Keeps, Reads, Shows, WritesAll, IsFair}
use chis_link.Copy.Deliver.{block, Fits}

module _ {W : Type 0} (left taken : W → List ℕ) (source : Source W) (sink : Sink W)
    (options : Options W) (fair : IsFair left taken source sink options) where
  -- Some of the bytes that are left are obtained, or none are left and the copy stops.
  abbrev pub Gets : ℕ → List ℕ → W → Obtained W → Type 0
  Gets block_size buffer w (stop w') = (left w ≡ []) × Keeps left taken w w'
  Gets block_size buffer w (failed w' code) = ⊥
  Gets block_size buffer w (got w' buffer' window n) =
      (1 ≤ n)
      × (n ≤ block_size)
      × (n ≤ length (left w))
      × (block window n buffer' ≡ take n (left w))
      × (left w' ≡ drop n (left w))
      × (taken w' ≡ taken w)
      × (length buffer' ≡ length buffer)
      × Fits left taken source sink options fair block_size window n buffer'

  Gets-if :
      (block_size : ℕ) (buffer : List ℕ) (w : W) (b : Bool) (x y : Obtained W)
      → (b ≡ true → Gets block_size buffer w x)
      → (b ≡ false → Gets block_size buffer w y)
      → Gets block_size buffer w (if b then x else y)
  Gets-if block_size buffer w true x y p q = p refl
  Gets-if block_size buffer w false x y p q = q refl

  read_buffer-Gets :
      (o : Option (List ℕ → ℕ → W → W × ℤ × List ℕ × ℕ)) (block_size want : ℕ) (buffer : List ℕ)
      (w : W)
      → is_some o ≡ true
      → Reads left taken o
      → 1 ≤ want
      → want ≤ block_size
      → want ≤ length buffer
      → Gets block_size buffer w (read_buffer o want buffer w)
  unfolding read_buffer
  read_buffer-Gets none block_size want buffer w s law h hb hn = absurd (ground arith)
  read_buffer-Gets (some read) block_size want buffer w s law h hb hn =
      let (w', ret, buffer', k) = read buffer want w in
      let l = law buffer want w h hn in
      Gets-if block_size buffer w (is_neg ret) _ _ (λ e. absurd (ground (arith, e, l.0)))
        (λ _.
          Gets-if block_size buffer w (k == 0) _ _
            (λ e.
              let z : k ≡ 0 = ground (arith, e) in
              (l.2 z, (l.6 ∙ ap (λ m. drop m (left w)) z, l.7)))
            (λ e. (ground (arith, e), omega (arith, l), l.5, l.4, l.6, l.7, l.3, omega (arith, l))))

  -- The same from a state of the same views.
  Gets-moved :
      (block_size : ℕ) (buffer : List ℕ) (w v : W)
      → left v ≡ left w
      → taken v ≡ taken w
      → (r : Obtained W) → Gets block_size buffer v r
      → Gets block_size buffer w r
  Gets-moved block_size buffer w v el et (stop w') g = (sym el ∙ g.0, (g.1.0 ∙ el, g.1.1 ∙ et))
  Gets-moved block_size buffer w v el et (failed w' code) g = g
  Gets-moved block_size buffer w v el et (got w' buffer' window n) g = (
    g.0,
    g.1,
    subst (λ xs. n ≤ length xs) el g.2,
    g.3 ∙ ap (take n) el,
    g.4 ∙ ap (drop n) el,
    g.5 ∙ et,
    g.6,
    g.7,
  )

  window-Gets :
      (o : Option (ℕ → W → W × ℤ × Window)) (block_size want : ℕ) (buffer : List ℕ) (w : W)
      → Shows left taken o
      → (o ≡ none) ⊎ ((is_some sink.direct_write ≡ true) ⊎ WritesAll left taken sink.write)
      → 1 ≤ want
      → want ≤ block_size
      → want ≤ length buffer
      → Gets block_size buffer w (read_window source o want buffer w)
  unfolding read_window
  window-Gets none block_size want buffer w law either h hb hn =
      read_buffer-Gets source.read block_size want buffer w fair.can_read fair.reads h hb hn
  window-Gets (some direct_read) block_size want buffer w law either h hb hn =
      let (w', ret, window) = direct_read want w in
      let l = law want w h in
      Gets-if block_size buffer w (is_neg ret) _ _ (λ e. absurd (ground (arith, e, l.0)))
        (λ _.
          Gets-if block_size buffer w (not (window.length == 0) && window.data_at == 0) _ _
            (λ e. absurd (ground (arith, e, l.2)))
            (λ _.
              Gets-if block_size buffer w (ltb want window.length) _ _
                (λ e. absurd (ground (arith, e, l.1)))
                (λ _.
                  Gets-if block_size buffer w (window.length == 0) _ _
                    (λ e.
                      let z : window.length ≡ 0 = ground (arith, e) in
                      Gets-moved block_size buffer w w' (l.5 ∙ ap (λ m. drop m (left w)) z) l.6
                        (read_buffer source.read want buffer w')
                        (read_buffer-Gets source.read block_size want buffer w' fair.can_read
                          fair.reads h hb hn))
                    (λ e. (
                      ground (arith, e),
                      omega (arith, l),
                      l.4,
                      l.3,
                      l.5,
                      l.6,
                      refl,
                      (refl, omega (arith, l), omega (arith, l), sinks either),
                    )))))
    where
      sinks :
          {o : ℕ → W → W × ℤ × Window}
          → (some o ≡ none) ⊎ ((is_some sink.direct_write ≡ true) ⊎ WritesAll left taken sink.write)
          → (is_some sink.direct_write ≡ true) ⊎ WritesAll left taken sink.write
      sinks (inl e) = absurd (ground arith)
      sinks (inr r) = r

  pub obtain-Gets :
      (block_size want : ℕ) (buffer : List ℕ) (w : W)
      → 1 ≤ want
      → want ≤ block_size
      → want ≤ length buffer
      → Gets block_size buffer w (obtain source want buffer w)
  obtain-Gets block_size want buffer w h hb hn =
      window-Gets source.direct_read block_size want buffer w fair.shows fair.whole h hb hn
