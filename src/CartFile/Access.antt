-- ===== src/CartFile/Access.antt =====
-- gba/sdk/src/cart_file.c: reading and writing through an open handle.
use chis_link.Common.{
  ℕ, ◌+◌, ◌-◌, ◌%◌, ◌^◌, List, [], Bool, true, false, not, ◌&&◌, ◌||◌, ltb, leb, ◌==◌,
  if◌then◌else◌, Option, none, some, take, drop, overwrite, ℤ, pos, neg, is_neg,
}
use chis_link.CartFile.{
  Slot, Cart, Window, no_window, open_read, open_write, info_bytes, has_flag, is_zero, is_info,
}
use chis_link.CartFile.Open.{slot_from_local, ensure_info, put_slot, call_kind, is_some}

abbrev pub u64 : ℕ → ℕ
u64 n = n % 2 ^ 64

abbrev pub null_data : Option (List ℕ) → ℕ → Bool
null_data none length = not (length == 0)
null_data (some bytes) length = false

abbrev pub bytes_of : Option (List ℕ) → List ℕ
bytes_of none = []
bytes_of (some bytes) = bytes

-- What a reading call leaves: the result, the caller's `dst` and `*out_length`.
pub record Reading (W : Type 0) : Type 0 where
  pub cart : Cart W
  pub result : ℤ
  pub dst : List ℕ
  pub out_length : ℕ

abbrev pub read_failed : {W : Type 0} → Cart W → ℤ → List ℕ → Reading W
read_failed cart code dst = record { cart = cart; result = code; dst = dst; out_length = 0 }

unfoldable pub read_info : {W : Type 0} → Cart W → ℕ → List ℕ → ℕ → Reading W
read_info cart offset dst length =
    let (cart', ret, cart_info) = ensure_info cart in
    if is_neg ret
    then read_failed cart' ret dst
    else if leb info_bytes offset
    then read_failed cart' (pos 0) dst
    else let remaining = info_bytes - offset in
      let n = (if ltb remaining length then remaining else length) in
      record {
        cart = cart';
        result = pos 0;
        dst = overwrite (take n (drop offset cart_info.memory)) dst;
        out_length = n;
      }

-- The position moves by what was read.
abbrev pub advance : {W : Type 0} → ℕ → Slot → Reading W → Reading W
advance local slot r =
    if is_zero r.result
    then record r {
      cart = put_slot r.cart local (record slot { offset = u64 (slot.offset + r.out_length) });
    }
    else r

-- `cart_read` through a slot that may be read.
unfoldable pub read_slot : {W : Type 0} → Cart W → ℕ → Slot → List ℕ → ℕ → Reading W
read_slot cart local slot dst length =
    if is_info slot.kind
    then advance local slot (read_info cart slot.offset dst length)
    else elim cart.driver.read [
      | none ↦ read_failed cart (neg 3) dst
      | some callback ↦
          let (world, ret, dst', out_length) =
            callback slot.kind slot.offset dst length cart.world in
          advance local slot (record {
            cart = record cart { world = world };
            result = ret;
            dst = dst';
            out_length = out_length;
          })
    ]

unfoldable pub read : {W : Type 0} → Cart W → ℕ → Option (List ℕ) → ℕ → Reading W
read cart local dst length =
    if null_data dst length
    then read_failed cart (neg 1) (bytes_of dst)
    else elim (slot_from_local cart.slots local) [
      | none ↦ read_failed cart (neg 2) (bytes_of dst)
      | some slot ↦
          if not (has_flag slot.flags open_read)
          then read_failed cart (neg 2) (bytes_of dst)
          else if slot.direct_active
          then read_failed cart (neg 4) (bytes_of dst)
          else read_slot cart local slot (bytes_of dst) length
    ]

abbrev pub null_window : Window → Bool
null_window window = not (window.length == 0) && not (is_some window.address)

-- `cart_direct_read` once the driver answered.
unfoldable pub take_window : {W : Type 0} → Cart W → ℕ → Slot → ℕ → ℤ → Window → Cart W × ℤ × Window
take_window cart local slot max_length ret window =
    if is_neg ret
    then (cart, ret, window)
    else if null_window window
    then (cart, neg 4, window)
    else if ltb max_length window.length
    then (
      (if not (window.length == 0)
          then record cart { world = (call_kind cart.driver.release_direct slot.kind cart.world).0 }
          else cart),
      neg 5,
      no_window,
    )
    else (
      put_slot cart local (record slot {
        offset = u64 (slot.offset + window.length);
        direct_active = not (window.length == 0);
      }),
      pos 0,
      window,
    )

unfoldable pub direct_read : {W : Type 0} → Cart W → ℕ → ℕ → Cart W × ℤ × Window
direct_read cart local max_length = elim (slot_from_local cart.slots local) [
  | none ↦ (cart, neg 2, no_window)
  | some slot ↦
      if not (has_flag slot.flags open_read) || is_info slot.kind
      then (cart, neg 2, no_window)
      else if slot.direct_active
      then (cart, neg 3, no_window)
      else elim cart.driver.direct_read [
        | none ↦ (cart, pos 0, no_window)
        | some callback ↦
            let (world, ret, window) = callback slot.kind slot.offset max_length cart.world in
            take_window (record cart { world = world }) local slot max_length ret window
      ]
]

unfoldable pub release_direct : {W : Type 0} → Cart W → ℕ → Cart W × ℤ
release_direct cart local = elim (slot_from_local cart.slots local) [
  | none ↦ (cart, neg 1)
  | some slot ↦
      if not slot.direct_active
      then (cart, pos 0)
      else let (world, ret) = call_kind cart.driver.release_direct slot.kind cart.world in
        let cart' = record cart { world = world } in
        (
          (if is_zero ret
              then put_slot cart' local (record slot { direct_active = false })
              else cart'),
          ret,
        )
]

-- The cart, the result and `*out_length` (0 where it is not set).
unfoldable pub write : {W : Type 0} → Cart W → ℕ → Option (List ℕ) → ℕ → Cart W × ℤ × ℕ
write cart local src length =
    if null_data src length then (cart, neg 1, 0) else elim (slot_from_local cart.slots local) [
      | none ↦ (cart, neg 2, 0)
      | some slot ↦
          if not (has_flag slot.flags open_write) || is_info slot.kind
          then (cart, neg 2, 0)
          else if slot.direct_active
          then (cart, neg 4, 0)
          else elim cart.driver.write [
            | none ↦ (cart, neg 3, 0)
            | some callback ↦
                let (world, ret, out_length) =
                  callback slot.kind slot.offset (bytes_of src) length cart.world in
                let cart' = record cart { world = world } in
                let moved = record slot {
                  offset = u64 (slot.offset + out_length);
                  flushed = if not (out_length == 0) then false else slot.flushed;
                } in
                ((if is_zero ret then put_slot cart' local moved else cart'), ret, out_length)
          ]
    ]

unfoldable pub seek : {W : Type 0} → Cart W → ℕ → ℕ → Cart W × ℤ
seek cart local offset = elim (slot_from_local cart.slots local) [
  | none ↦ (cart, neg 1)
  | some slot ↦
      if slot.direct_active
      then (cart, neg 2)
      else (put_slot cart local (record slot { offset = offset }), pos 0)
]

unfoldable pub truncate : {W : Type 0} → Cart W → ℕ → ℕ → Cart W × ℤ
truncate cart local size = elim (slot_from_local cart.slots local) [
  | none ↦ (cart, neg 1)
  | some slot ↦
      if not (has_flag slot.flags open_write) || is_info slot.kind
      then (cart, neg 1)
      else if slot.direct_active
      then (cart, neg 2)
      else let cart' = put_slot cart local (record slot { target_size = size; flushed = false }) in
        elim cart.driver.set_size [
          | none ↦ (cart', pos 0)
          | some callback ↦
              let (world, ret) = callback slot.kind size cart.world in
              (record cart' { world = world }, ret)
        ]
]

unfoldable pub flush : {W : Type 0} → Cart W → ℕ → Cart W × ℤ
flush cart local = elim (slot_from_local cart.slots local) [
  | none ↦ (cart, neg 1)
  | some slot ↦
      if slot.direct_active
      then (cart, neg 2)
      else if not (is_some cart.driver.flush) || is_info slot.kind
      then (cart, pos 0)
      else let (world, ret) = call_kind cart.driver.flush slot.kind cart.world in
        let cart' = record cart { world = world } in
        (
          (if is_zero ret then put_slot cart' local (record slot { flushed = true }) else cart'),
          ret,
        )
]
