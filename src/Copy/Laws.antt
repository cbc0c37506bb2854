-- ===== src/Copy/Laws.antt =====
-- What a copy expects of its callbacks, by two views of their common state: the bytes that the source has
-- still to give, and the bytes that the sink has taken.
use chis_link.Common.{
  ℕ, ◌+◌, ◌≤◌, ◌<◌, ◌≡◌, ◌⊎◌, true, false, List, [], ◌++◌, length, take, drop, Option, none, some,
  ℤ, is_neg,
}
use chis_link.Copy.{Window, Source, Sink, Options, is_some}
use chis_link.Copy.Bytes.{window_bytes}

module _ {W : Type 0} (left taken : W → List ℕ) where
  -- A call that neither gives nor takes.
  abbrev pub Keeps : W → W → Type 0
  Keeps w w' = (left w' ≡ left w) × (taken w' ≡ taken w)

  -- A read gives some of the bytes, and none only at the end.
  abbrev pub Reads : Option (List ℕ → ℕ → W → W × ℤ × List ℕ × ℕ) → Type 0
  Reads none = Unit {0}
  Reads (some read) =
      (buffer : List ℕ) (n : ℕ) (w : W)
      → 1 ≤ n
      → n ≤ length buffer
      → let (w', ret, buffer', k) = read buffer n w in
        (is_neg ret ≡ false)
        × (k ≤ n)
        × ((k ≡ 0) → left w ≡ [])
        × (length buffer' ≡ length buffer)
        × (take k buffer' ≡ take k (left w))
        × (k ≤ length (left w))
        × (left w' ≡ drop k (left w))
        × (taken w' ≡ taken w)

  -- A window shows the next bytes, at an address that is not NULL; an empty one is no window.
  abbrev pub Shows : Option (ℕ → W → W × ℤ × Window) → Type 0
  Shows none = Unit {0}
  Shows (some direct_read) =
      (n : ℕ) (w : W)
      → 1 ≤ n
      → let (w', ret, window) = direct_read n w in
        (is_neg ret ≡ false)
        × (window.length ≤ n)
        × ((window.length ≡ 0) ⊎ (0 < window.data_at))
        × (window_bytes window 0 window.length ≡ take window.length (left w))
        × (window.length ≤ length (left w))
        × (left w' ≡ drop window.length (left w))
        × (taken w' ≡ taken w)

  -- A write takes some of the bytes, at least one.
  abbrev pub Writes : Option (List ℕ → ℕ → W → W × ℤ × ℕ) → Type 0
  Writes none = Unit {0}
  Writes (some write) =
      (bytes : List ℕ) (n : ℕ) (w : W)
      → 1 ≤ n
      → n ≤ length bytes
      → let (w', ret, k) = write bytes n w in
        (is_neg ret ≡ false)
        × (1 ≤ k)
        × (k ≤ n)
        × (taken w' ≡ taken w ++ take k bytes)
        × (left w' ≡ left w)

  -- The same from a window.
  abbrev pub WritesWindow : Option (Window → ℕ → ℕ → W → W × ℤ × ℕ) → Type 0
  WritesWindow none = Unit {0}
  WritesWindow (some direct_write) =
      (window : Window) (at n : ℕ) (w : W)
      → 1 ≤ n
      → at + n ≤ window.length
      → let (w', ret, k) = direct_write window at n w in
        (is_neg ret ≡ false)
        × (1 ≤ k)
        × (k ≤ n)
        × (taken w' ≡ taken w ++ window_bytes window at k)
        × (left w' ≡ left w)

  -- A release, a progress report and a flush.
  abbrev pub Releases : Option (W → W × ℤ) → Type 0
  Releases none = Unit {0}
  Releases (some callback) =
      (w : W) → let (w', ret) = callback w in (is_neg ret ≡ false) × Keeps w w'

  abbrev pub Reports : Option (ℕ → ℕ → W → W × ℤ) → Type 0
  Reports none = Unit {0}
  Reports (some progress) =
      (done size : ℕ) (w : W)
      → let (w', ret) = progress done size w in (is_neg ret ≡ false) × Keeps w w'

  -- A write of the buffer that takes all it is given: what copying windows through the buffer needs, as the
  -- copy takes a short write for a failure there.
  abbrev pub WritesAll : Option (List ℕ → ℕ → W → W × ℤ × ℕ) → Type 0
  WritesAll none = Unit {0}
  WritesAll (some write) =
      (bytes : List ℕ) (n : ℕ) (w : W) → 1 ≤ n → n ≤ length bytes → (write bytes n w).2 ≡ n

  -- Callbacks that a copy may rely on.
  pub record IsFair (source : Source W) (sink : Sink W) (options : Options W) : Type 0 where
    pub can_read : is_some source.read ≡ true
    pub can_write : is_some sink.write ≡ true
    pub reads : Reads source.read
    pub shows : Shows source.direct_read
    pub releases : Releases source.release_direct
    pub writes : Writes sink.write
    pub writes_window : WritesWindow sink.direct_write
    pub whole :
        (source.direct_read ≡ none) ⊎ ((is_some sink.direct_write ≡ true) ⊎ WritesAll sink.write)
    pub flushes : Releases sink.flush
    pub reports : Reports options.progress
