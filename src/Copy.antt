-- ===== src/Copy.antt =====
-- gba/sdk/src/copy.c (with include/chislink/copy.h): copying from a source to a sink. The callbacks are
-- parameters: each passes the state `W` of both sides through, and NULL is `none`.
pub mod Bytes
pub mod Block
pub mod Laws
pub mod Deliver
pub mod Obtain
pub mod Whole
use chis_link.Common.{
  ℕ, zero, suc, ◌+◌, ◌-◌, ◌*◌, ◌/◌, ◌%◌, ◌^◌, List, [], ◌∷◌, ◌++◌, Bool, true, false, not, ◌&&◌,
  ◌||◌, ltb, leb, ◌==◌, if◌then◌else◌, Option, none, some, take, drop, set, length, u32, bit_and, ℤ,
  pos, neg, is_neg,
}

-- `cl_direct_window_t`: an address, 0 for NULL, and what the memory holds while the window is outstanding.
pub record Window : Type 0 where
  pub data_at : ℕ
  pub length : ℕ
  pub access : ℕ
  pub memory : ℕ → ℕ

abbrev pub access_bytes : ℕ
access_bytes = 0

abbrev pub access_rom16_le : ℕ
access_rom16_le = 1

-- `*half` at an even address.
abbrev pub load_half : (ℕ → ℕ) → ℕ → ℕ
load_half memory at = memory at + memory (at + 1) * 256

-- `cl_direct_window_read_byte`; `addr & ~1` is `addr` without its lowest bit.
unfoldable pub read_byte : Window → ℕ → ℕ
read_byte window offset =
    let addr = window.data_at + offset in
    let value = load_half window.memory (addr - addr % 2) in
    let half_byte = (if addr % 2 == 1 then value / 256 else value) % 256 in
    if window.data_at == 0 || leb window.length offset
    then 0
    else if window.access == access_rom16_le
    then half_byte
    else window.memory addr

-- `cl_copy_source_t` without `ctx`.
pub record Source (W : Type 0) : Type 0 where
  pub read : Option (List ℕ → ℕ → W → W × ℤ × List ℕ × ℕ)
  pub direct_read : Option (ℕ → W → W × ℤ × Window)
  pub release_direct : Option (W → W × ℤ)
  pub size : ℕ
  pub preferred_block_size : ℕ
  pub max_block_size : ℕ

-- `cl_copy_sink_t` without `ctx` and the unused `size`.
pub record Sink (W : Type 0) : Type 0 where
  pub write : Option (List ℕ → ℕ → W → W × ℤ × ℕ)
  pub direct_write : Option (Window → ℕ → ℕ → W → W × ℤ × ℕ)
  pub flush : Option (W → W × ℤ)
  pub preferred_block_size : ℕ
  pub max_block_size : ℕ

-- `cl_copy_options_t`; a NULL `buffer` is `none`.
pub record Options (W : Type 0) : Type 0 where
  pub buffer : Option (List ℕ)
  pub buffer_size : ℕ
  pub block_size : ℕ
  pub progress : Option (ℕ → ℕ → W → W × ℤ)
  pub flush_on_finish : Bool

abbrev pub min_u32 : ℕ → ℕ → ℕ
min_u32 a b = if ltb a b then a else b

-- A limit of 0 is no limit.
unfoldable pub limit : ℕ → ℕ → ℕ
limit block n = if n == 0 then block else min_u32 block n

abbrev pub default_block_size : ℕ
default_block_size = 32768

-- `block & ~3u`
unfoldable pub choose_block_size : {W : Type 0} → Source W → Sink W → Options W → ℕ
choose_block_size source sink options =
    let b1 = limit default_block_size source.preferred_block_size in
    let b2 = limit b1 source.max_block_size in
    let b3 = limit b2 sink.preferred_block_size in
    let b4 = limit b3 sink.max_block_size in
    let b5 = limit b4 options.block_size in
    let b6 = limit b5 options.buffer_size in bit_and b6 0xfffffffc

abbrev pub is_some {ℓ} : {A : Type ℓ} → Option A → Bool
is_some none = false
is_some (some a) = true

-- A callback without further arguments, such as `release_direct`; 0 if there is none.
abbrev pub call_if : {W : Type 0} → Option (W → W × ℤ) → W → W × ℤ
call_if none w = (w, pos 0)
call_if (some callback) w = callback w

abbrev pub release : {W : Type 0} → Source W → W → W × ℤ
release source w = call_if source.release_direct w

-- The release whose result is dropped.
abbrev pub let_go : {W : Type 0} → Source W → Option Window → W → W
let_go source none w = w
let_go source (some window) w = (release source w).0

-- What a round has to deliver, or how the copy ends instead.
pub data Obtained (W : Type 0) : Type 0 where
  stop : W → Obtained W
  failed : W → ℤ → Obtained W
  got : W → List ℕ → Option Window → ℕ → Obtained W

-- The second half of the acquisition: the buffered read, when there is no window.
unfoldable pub read_buffer :
    {W : Type 0} → Option (List ℕ → ℕ → W → W × ℤ × List ℕ × ℕ) → ℕ → List ℕ → W → Obtained W
read_buffer none want buffer w = stop w
read_buffer (some read) want buffer w =
    let (w', ret, buffer', n) = read buffer want w in
    if is_neg ret then failed w' ret else if n == 0 then stop w' else got w' buffer' none n

-- The first half, when the source has `direct_read`.
unfoldable pub read_window :
    {W : Type 0} → Source W → Option (ℕ → W → W × ℤ × Window) → ℕ → List ℕ → W → Obtained W
read_window source none want buffer w = read_buffer source.read want buffer w
read_window source (some direct_read) want buffer w =
    let (w', ret, window) = direct_read want w in
    if is_neg ret
    then failed w' ret
    else if not (window.length == 0) && window.data_at == 0
    then failed w' (neg 4)
    else if ltb want window.length
    then failed (if window.data_at == 0 then w' else (release source w').0) (neg 5)
    else if window.length == 0
    then read_buffer source.read want buffer w'
    else got w' buffer (some window) window.length

abbrev pub obtain : {W : Type 0} → Source W → ℕ → List ℕ → W → Obtained W
obtain source want buffer w = read_window source source.direct_read want buffer w

-- The loop that copies `n` bytes of a window to the buffer.
unfoldable pub copy_bytes : Window → ℕ → ℕ → ℕ → List ℕ → List ℕ
copy_bytes window zero at i buffer = buffer
copy_bytes window (suc n) at i buffer =
    copy_bytes window n at (i + 1) (set buffer i (read_byte window (at + i)))

abbrev pub call_write :
    {W : Type 0} → Option (List ℕ → ℕ → W → W × ℤ × ℕ) → List ℕ → ℕ → W → W × ℤ × ℕ
call_write none bytes n w = (w, pos 0, 0)
call_write (some write) bytes n w = write bytes n w

-- One write out of a window: the state, the result, the bytes written, the buffer.
unfoldable pub write_window :
    {W : Type 0}
    → Sink W
    → Option (Window → ℕ → ℕ → W → W × ℤ × ℕ)
    → ℕ
    → Window
    → ℕ
    → ℕ
    → List ℕ
    → W
    → W × ℤ × ℕ × List ℕ
write_window sink (some direct_write) block_size window total n buffer w =
    let (w', ret, written) = direct_write window total (n - total) w in (w', ret, written, buffer)
write_window sink none block_size window total n buffer w =
    let to_copy = (if ltb block_size (n - total) then block_size else n - total) in
    let buffer' = copy_bytes window to_copy total 0 buffer in
    let (w', ret, written) = call_write sink.write buffer' to_copy w in
    (w', (if not (is_neg ret) && not (written == to_copy) then neg 3 else ret), written, buffer')

-- One write of the inner loop.
unfoldable pub write_once :
    {W : Type 0} → Sink W → ℕ → Option Window → ℕ → ℕ → List ℕ → W → W × ℤ × ℕ × List ℕ
write_once sink block_size none total n buffer w =
    let (w', ret, written) = call_write sink.write (drop total buffer) (n - total) w in
    (w', ret, written, buffer)
write_once sink block_size (some window) total n buffer w =
    write_window sink sink.direct_write block_size window total n buffer w

-- How the inner loop ends.
pub data Delivered (W : Type 0) : Type 0 where
  out_of_fuel : Delivered W
  refused : W → ℤ → Delivered W
  delivered : W → List ℕ → Delivered W

-- The inner loop; the first argument is fuel.
unfoldable pub deliver :
    {W : Type 0} → ℕ → Source W → Sink W → ℕ → Option Window → ℕ → ℕ → List ℕ → W → Delivered W
deliver zero source sink block_size window n total buffer w =
    if ltb total n then out_of_fuel else delivered w buffer
deliver (suc fuel) source sink block_size window n total buffer w =
    let (w', ret, written, buffer') = write_once sink block_size window total n buffer w in
    let rest = deliver fuel source sink block_size window n (u32 (total + written)) buffer' w' in
    if not (ltb total n)
    then delivered w buffer
    else if is_neg ret
    then refused (let_go source window w') ret
    else if written == 0
    then refused (let_go source window w') (neg 3)
    else rest

abbrev pub u64 : ℕ → ℕ
u64 n = n % 2 ^ 64

abbrev pub report : {W : Type 0} → Option (ℕ → ℕ → W → W × ℤ) → ℕ → ℕ → W → W × ℤ
report none done size w = (w, pos 0)
report (some progress) done size w = progress done size w

-- What follows the outer loop.
unfoldable pub conclude : {W : Type 0} → Source W → Sink W → Options W → ℕ → W → W × ℤ
conclude source sink options done w =
    if not (source.size == 0) && not (done == source.size)
    then (w, neg 6)
    else if options.flush_on_finish
    then call_if sink.flush w
    else (w, pos 0)

-- How much the next round asks for.
abbrev pub wanted : ℕ → ℕ → ℕ → ℕ
wanted size block_size done =
    if size == 0
    then block_size
    else if ltb (size - done) block_size
    then size - done
    else block_size

-- How a round ends: the copy returns, the loop is left, or it goes on with a new count.
pub data Round (W : Type 0) : Type 0 where
  starved : Round W
  returns : W → ℤ → Round W
  leaves : W → Round W
  goes_on : W → List ℕ → ℕ → Round W

-- The release of the window after the inner loop.
abbrev pub finish_window : {W : Type 0} → Source W → Option Window → W → W × ℤ
finish_window source none w = (w, pos 0)
finish_window source (some window) w = release source w

unfoldable pub after_delivery :
    {W : Type 0} → Source W → Options W → Option Window → ℕ → ℕ → Delivered W → Round W
after_delivery source options window n done out_of_fuel = starved
after_delivery source options window n done (refused w code) = returns w code
after_delivery source options window n done (delivered w buffer) =
    let (w', ret) = finish_window source window w in
    if is_neg ret
    then returns w' ret
    else let (w'', ret') = report options.progress (u64 (done + n)) source.size w' in
      if is_neg ret' then returns w'' ret' else goes_on w'' buffer (u64 (done + n))

-- The body of the outer loop. Every write of the inner loop writes a byte at least, so as many rounds as
-- bytes do.
unfoldable pub round : {W : Type 0} → Source W → Sink W → Options W → ℕ → ℕ → List ℕ → W → Round W
round source sink options block_size done buffer w =
    elim (obtain source (wanted source.size block_size done) buffer w) [
      | stop w' ↦ leaves w'
      | failed w' code ↦ returns w' code
      | got w' buffer' window n ↦
          after_delivery source options window n done
            (deliver n source sink block_size window n 0 buffer' w')
    ]

-- The outer loop; the first argument is fuel, and `none` means that it ran out.
unfoldable pub copy_loop :
    {W : Type 0} → ℕ → Source W → Sink W → Options W → ℕ → ℕ → List ℕ → W → Option (W × ℤ)
copy_loop zero source sink options block_size done buffer w = none
copy_loop (suc fuel) source sink options block_size done buffer w =
    if not (source.size == 0) && leb source.size done
    then some (conclude source sink options done w)
    else elim (round source sink options block_size done buffer w) [
      | starved ↦ none
      | returns w' code ↦ some (w', code)
      | leaves w' ↦ some (conclude source sink options done w')
      | goes_on w' buffer' done' ↦ copy_loop fuel source sink options block_size done' buffer' w'
    ]

-- `cl_copy_stream` once the buffer is looked at.
unfoldable pub copy_buffer :
    {W : Type 0} → ℕ → Source W → Sink W → Options W → Option (List ℕ) → W → Option (W × ℤ)
copy_buffer fuel source sink options none w = some (w, neg 1)
copy_buffer fuel source sink options (some buffer) w =
    let block_size = choose_block_size source sink options in
    if (not (is_some source.read) && not (is_some source.direct_read))
      || not (is_some sink.write)
      || ltb options.buffer_size 4
    then some (w, neg 1)
    else if ltb block_size 4
    then some (w, neg 2)
    else copy_loop fuel source sink options block_size 0 buffer w

abbrev pub copy_stream : {W : Type 0} → ℕ → Source W → Sink W → Options W → W → Option (W × ℤ)
copy_stream fuel source sink options w = copy_buffer fuel source sink options options.buffer w
