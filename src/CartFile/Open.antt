-- ===== src/CartFile/Open.antt =====
-- gba/sdk/src/cart_file.c: paths, metadata, and the opening and closing of handles.
use chis_link.Common.{
  ℕ, zero, suc, ◌+◌, ◌-◌, bit_or, List, [], ◌∷◌, Bool, true, false, not, ◌&&◌, ◌||◌, ltb, ◌==◌,
  if◌then◌else◌, Option, none, some, get_or, set, replicate, ℤ, pos, neg, is_neg,
}
use chis_link.CartFile.{
  Kind, rom, save, info, CartInfo, Driver, Slot, Cart, max_handles, open_read, open_write,
  default_block_size, default_alignment, file_regular, info_bytes, has_flag, is_zero, is_info,
}

-- The characters of `/dev/cart/`, and of the three files.
abbrev cart_prefix : List ℕ → List ℕ
cart_prefix name = 47 ∷ 100 ∷ 101 ∷ 118 ∷ 47 ∷ 99 ∷ 97 ∷ 114 ∷ 116 ∷ 47 ∷ name

abbrev pub rom_path : List ℕ
rom_path = cart_prefix (114 ∷ 111 ∷ 109 ∷ [])

abbrev pub save_path : List ℕ
save_path = cart_prefix (115 ∷ 97 ∷ 118 ∷ 101 ∷ [])

abbrev pub info_path : List ℕ
info_path = cart_prefix (105 ∷ 110 ∷ 102 ∷ 111 ∷ [])

-- The loop of `path_eq` on strings without their final zeros.
unfoldable pub same_path : List ℕ → List ℕ → Bool
same_path [] [] = true
same_path [] (y ∷ ys) = false
same_path (x ∷ xs) [] = false
same_path (x ∷ xs) (y ∷ ys) = (x == y) && same_path xs ys

unfoldable pub path_eq : Option (List ℕ) → List ℕ → Bool
path_eq none b = false
path_eq (some a) b = same_path a b

unfoldable pub kind_from_path : Option (List ℕ) → Option Kind
kind_from_path path =
    if path_eq path rom_path
    then some rom
    else if path_eq path save_path
    then some save
    else if path_eq path info_path
    then some info
    else none

-- A slot that nothing has opened; its other fields are not read.
abbrev pub closed_slot : Slot
closed_slot = record {
  kind = rom;
  flags = 0;
  offset = 0;
  target_size = 0;
  flushed = false;
  direct_active = false;
  is_open = false;
}

unfoldable pub slot_from_local : List Slot → ℕ → Option Slot
slot_from_local slots local =
    if local == 0 || ltb max_handles local
    then none
    else let slot = get_or slots (local - 1) closed_slot in if slot.is_open then some slot else none

-- `cl_file_stat_t`
pub record FileStat : Type 0 where
  pub size : ℕ
  pub preferred_block_size : ℕ
  pub max_block_size : ℕ
  pub alignment : ℕ
  pub type : ℕ
  pub flags : ℕ

abbrev pub flag_if : Bool → ℕ → ℕ
flag_if b flag = if b then flag else 0

unfoldable pub fill_stat_for_kind : Kind → CartInfo → FileStat
fill_stat_for_kind kind cart_info =
    let stat : ℕ → ℕ → FileStat = λ size flags. record {
      size = size;
      preferred_block_size = default_block_size;
      max_block_size = default_block_size;
      alignment = default_alignment;
      type = file_regular;
      flags = flags;
    } in
    elim kind [
      | rom ↦
          stat cart_info.rom_size (bit_or (flag_if cart_info.can_program_rom open_write) open_read)
      | save ↦ stat cart_info.save_size (
          bit_or (flag_if cart_info.can_read_save open_read)
            (flag_if cart_info.can_write_save open_write))
      | info ↦ stat info_bytes open_read
    ]

abbrev pub no_info : CartInfo
no_info = record {
  rom_size = 0;
  save_size = 0;
  can_program_rom = false;
  can_read_save = false;
  can_write_save = false;
  memory = replicate info_bytes 0;
}

-- `ensure_info`, which is also `cl_cart_info`.
unfoldable pub ensure_info : {W : Type 0} → Cart W → Cart W × ℤ × CartInfo
ensure_info cart = elim cart.driver.info [
  | none ↦ (cart, neg 2, no_info)
  | some read_info ↦
      let (world, ret, cart_info) = read_info cart.world in
      (record cart { world = world }, ret, cart_info)
]

abbrev pub no_driver : {W : Type 0} → Driver W
no_driver = record {
  info = none;
  read = none;
  direct_read = none;
  release_direct = none;
  write = none;
  set_size = none;
  flush = none;
}

abbrev pub close_slots : List Slot → List Slot
close_slots [] = []
close_slots (slot ∷ slots) = record slot { is_open = false } ∷ close_slots slots

-- `cl_cart_set_driver`; its result is always 0.
unfoldable pub set_driver : {W : Type 0} → Cart W → Option (Driver W) → Cart W
set_driver cart none = record cart { slots = close_slots cart.slots; driver = no_driver }
set_driver cart (some driver) = record cart { slots = close_slots cart.slots; driver = driver }

abbrev pub opened : Kind → ℕ → Slot
opened kind flags = record {
  kind = kind;
  flags = flags;
  offset = 0;
  target_size = 0;
  flushed = false;
  direct_active = false;
  is_open = true;
}

-- The loop over the slots: the slots with one opened, and `*out_local`. The second argument counts the
-- rounds that are left.
unfoldable pub open_slot : ℕ → ℕ → List Slot → Kind → ℕ → Option (List Slot × ℕ)
open_slot zero i slots kind flags = none
open_slot (suc left) i slots kind flags =
    let rest = open_slot left (i + 1) slots kind flags in
    if not ((get_or slots i closed_slot).is_open)
    then some (set slots i (opened kind flags), i + 1)
    else rest

-- What the driver's metadata forbids; 0 if nothing.
unfoldable pub refusal : Kind → ℕ → CartInfo → ℤ
refusal rom flags cart_info =
    if has_flag flags open_write && not cart_info.can_program_rom then neg 4 else pos 0
refusal save flags cart_info =
    if has_flag flags open_read && not cart_info.can_read_save
    then neg 5
    else if has_flag flags open_write && not cart_info.can_write_save
    then neg 6
    else pos 0
refusal info flags cart_info = pos 0

-- `cart_open` once the kind is known; the last component is `*out_local` where it is set.
unfoldable pub open_kind : {W : Type 0} → Cart W → Kind → ℕ → Cart W × ℤ × Option ℕ
open_kind cart kind flags =
    if has_flag flags open_write && is_info kind
    then (cart, neg 3, none)
    else let (cart', ret, cart_info) = ensure_info cart in
      if is_neg ret
      then (cart', ret, none)
      else if is_neg (refusal kind flags cart_info)
      then (cart', refusal kind flags cart_info, none)
      else elim (open_slot max_handles 0 cart'.slots kind flags) [
        | none ↦ (cart', neg 7, none)
        | some (slots, local) ↦ (record cart' { slots = slots }, pos 0, some local)
      ]

unfoldable pub open_path : {W : Type 0} → Cart W → Option (List ℕ) → ℕ → Cart W × ℤ × Option ℕ
open_path cart none flags = (cart, neg 1, none)
open_path cart (some path) flags = elim (kind_from_path (some path)) [
  | none ↦ (cart, neg 2, none)
  | some kind ↦ open_kind cart kind flags
]

-- `slot` written back behind the handle.
abbrev pub put_slot : {W : Type 0} → Cart W → ℕ → Slot → Cart W
put_slot cart local slot = record cart { slots = set cart.slots (local - 1) slot }

-- A callback that is given the kind alone, if the driver has it.
abbrev pub call_kind : {W : Type 0} → Option (Kind → W → W × ℤ) → Kind → W → W × ℤ
call_kind none kind world = (world, pos 0)
call_kind (some callback) kind world = callback kind world

abbrev pub is_some : {A : Type 0} → Option A → Bool
is_some none = false
is_some (some a) = true

unfoldable pub close : {W : Type 0} → Cart W → ℕ → Cart W × ℤ
close cart local = elim (slot_from_local cart.slots local) [
  | none ↦ (cart, neg 1)
  | some slot ↦
      let releases = slot.direct_active && is_some cart.driver.release_direct in
      let world =
        (if releases
          then (call_kind cart.driver.release_direct slot.kind cart.world).0
          else cart.world) in
      let released = (if releases then record slot { direct_active = false } else slot) in
      let flushes =
        has_flag slot.flags open_write
        && (not slot.flushed && (is_some cart.driver.flush && not (is_info slot.kind))) in
      let (world', ret) =
        (if flushes then call_kind cart.driver.flush slot.kind world else (world, pos 0)) in
      let flushed = (if flushes then record released { flushed = is_zero ret } else released) in
      (record (put_slot cart local (record flushed { is_open = false })) { world = world' }, ret)
]

unfoldable pub stat : {W : Type 0} → Cart W → Option (List ℕ) → Cart W × ℤ × Option FileStat
stat cart path = elim (kind_from_path path) [
  | none ↦ (cart, neg 2, none)
  | some kind ↦
      let (cart', ret, cart_info) = ensure_info cart in
      if is_neg ret
      then (cart', ret, none)
      else (cart', pos 0, some (fill_stat_for_kind kind cart_info))
]

unfoldable pub fstat : {W : Type 0} → Cart W → ℕ → Cart W × ℤ × Option FileStat
fstat cart local = elim (slot_from_local cart.slots local) [
  | none ↦ (cart, neg 1, none)
  | some slot ↦
      let (cart', ret, cart_info) = ensure_info cart in
      if is_neg ret
      then (cart', ret, none)
      else (cart', pos 0, some (fill_stat_for_kind slot.kind cart_info))
]
