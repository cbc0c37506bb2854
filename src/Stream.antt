-- ===== src/Stream.antt =====
-- gba/sdk/src/stream.c (with include/chislink/stream.h): the ring of slots between the transport,
-- which commits received data, and the application, which peeks at it and releases it.
pub mod Fifo
pub mod Window
pub mod Pending
pub mod Refine
pub mod Bounds
use chis_link.Common.{
  ℕ, zero, suc, ◌+◌, ◌-◌, ◌*◌, ◌%◌, bit_and, bit_or, List, [], ◌∷◌, Bool, true, false, not, ◌&&◌,
  ◌||◌,
}
use chis_link.Common.{
  ltb, leb, ◌==◌, if◌then◌else◌, Option, none, some, get_or, set, u8, u16, u32, ℤ, pos, negsuc, neg,
}

-- `cl_stream_slot_t`
pub record Slot : Type 0 where
  pub offset : ℕ
  pub length : ℕ
  pub flags : ℕ

-- `cl_stream_config_t`. `buffer` is an address and 0 is NULL; a NULL `slots` is `[]`.
pub record Config : Type 0 where
  pub buffer : ℕ
  pub buffer_size : ℕ
  pub slots : List Slot
  pub slot_count : ℕ
  pub slot_size : ℕ
  pub flags : ℕ
  pub profile : ℕ

-- `cl_stream_state_t`
pub data State : Type 0 where
  closed idle opened paused error : State

-- `cl_stream_t`
pub record Stream : Type 0 where
  pub buffer : ℕ
  pub buffer_size : ℕ
  pub slots : List Slot
  pub flags : ℕ
  pub slot_size : ℕ
  pub slot_count : ℕ
  pub read_slot : ℕ
  pub write_slot : ℕ
  pub ready_slots : ℕ
  pub state : State
  pub read_offset : ℕ
  pub profile : ℕ
  pub stream_id : ℕ
  pub rx_offset : ℕ
  pub tx_offset : ℕ
  pub remote_size_low : ℕ
  pub remote_size_high : ℕ
  pub last_error : ℤ

-- `cl_stream_span_t`
pub record Span : Type 0 where
  pub data_at : ℕ
  pub capacity : ℕ
  pub slot_index : ℕ

-- `cl_stream_view_t`
pub record View : Type 0 where
  pub data_at : ℕ
  pub offset : ℕ
  pub length : ℕ
  pub flags : ℕ
  pub slot_index : ℕ

-- `cl_stream_result_t`; CL_STREAM_OK is `pos 0`.
abbrev pub err_invalid : ℤ
err_invalid = neg 1

abbrev pub err_full : ℤ
err_full = neg 2

abbrev pub err_empty : ℤ
err_empty = neg 3

abbrev pub err_too_large : ℤ
err_too_large = neg 4

abbrev pub slot_ready : ℕ
slot_ready = 0x0001

abbrev pub slot_consumed : ℕ
slot_consumed = 0x0002

abbrev pub empty_slot : Slot
empty_slot = record { offset = 0; length = 0; flags = 0 }

abbrev pub no_slots : List Slot → Bool
no_slots [] = true
no_slots (s ∷ ss) = false

unfoldable pub flags_for_profile : ℕ → ℕ
flags_for_profile profile = if profile == 1 then 0x8 else if profile == 2 then 0x10 else 0

unfoldable pub valid_config : Config → Bool
valid_config c =
    if c.buffer == 0
      || no_slots c.slots
      || c.buffer_size == 0
      || c.slot_count == 0
      || c.slot_size == 0
    then false
    else if not (bit_and c.buffer 3 == 0)
    then false
    else leb (u32 (c.slot_count * c.slot_size)) c.buffer_size

-- The loop that clears slots `i`, `i + 1`, …; the first argument counts those that are left.
unfoldable pub clear_slots : ℕ → ℕ → List Slot → List Slot
clear_slots zero i slots = slots
clear_slots (suc left) i slots = clear_slots left (i + 1) (set slots i empty_slot)

-- `cl_stream_init`; `none` is the result `false`, which leaves `*stream` as it was.
unfoldable pub init : Config → Option Stream
init c =
    if valid_config c
    then some (record {
      buffer = c.buffer;
      buffer_size = c.buffer_size;
      slots = clear_slots c.slot_count 0 c.slots;
      flags = bit_or c.flags (flags_for_profile c.profile);
      slot_size = c.slot_size;
      slot_count = c.slot_count;
      read_slot = 0;
      write_slot = 0;
      ready_slots = 0;
      state = idle;
      read_offset = 0;
      profile = c.profile;
      stream_id = 0;
      rx_offset = 0;
      tx_offset = 0;
      remote_size_low = 0;
      remote_size_high = 0;
      last_error = pos 0;
    })
    else none

unfoldable pub reset : Stream → Stream
reset s = record s {
  slots = clear_slots s.slot_count 0 s.slots;
  read_slot = 0;
  write_slot = 0;
  ready_slots = 0;
  state = idle;
  read_offset = 0;
  stream_id = 0;
  rx_offset = 0;
  tx_offset = 0;
  remote_size_low = 0;
  remote_size_high = 0;
  last_error = pos 0;
}

unfoldable pub capacity : Stream → ℕ
capacity s = u32 (s.slot_count * s.slot_size)

unfoldable pub free_count : Stream → ℕ
free_count s = if ltb s.slot_count s.ready_slots then 0 else u8 (s.slot_count - s.ready_slots)

unfoldable pub can_receive : Stream → Bool
unfolding free_count
can_receive s = not (free_count s == 0)

unfoldable pub producer_acquire : Stream → Span × ℤ
unfolding can_receive
producer_acquire s =
    if s.buffer == 0
      || no_slots s.slots
      || s.slot_size == 0
      || s.slot_count == 0
      || ltb s.slot_count s.ready_slots
    then (record { data_at = 0; capacity = 0; slot_index = 0 }, err_invalid)
    else if not (can_receive s)
    then (record { data_at = 0; capacity = 0; slot_index = s.write_slot }, err_full)
    else (
      record {
        data_at = s.buffer + u32 (s.write_slot * s.slot_size);
        capacity = s.slot_size;
        slot_index = s.write_slot;
      },
      pos 0,
    )

-- `slot++` with a wrap at `slot_count`, on `uint8_t`.
unfoldable pub next_slot : ℕ → ℕ → ℕ
next_slot count slot = if leb count (u8 (slot + 1)) then 0 else u8 (slot + 1)

unfoldable pub producer_commit_at : Stream → ℕ → ℕ → Stream × ℤ
producer_commit_at s offset length =
    if no_slots s.slots
      || s.buffer == 0
      || s.slot_count == 0
      || s.slot_size == 0
      || ltb s.slot_count s.ready_slots
      || leb s.slot_count s.write_slot
    then (s, err_invalid)
    else if leb s.slot_count s.ready_slots
    then (s, err_full)
    else if length == 0 || ltb s.slot_size length
    then (s, err_too_large)
    else (
      record s {
        slots =
            set s.slots s.write_slot
              (record { offset = offset; length = length; flags = slot_ready });
        rx_offset = u32 (offset + length);
        write_slot = next_slot s.slot_count s.write_slot;
        ready_slots = u8 (s.ready_slots + 1);
      },
      pos 0,
    )

unfoldable pub producer_commit : Stream → ℕ → Stream × ℤ
producer_commit s length = producer_commit_at s s.rx_offset length

abbrev no_view : View
no_view = record { data_at = 0; offset = 0; length = 0; flags = 0; slot_index = 0 }

abbrev pub read_head : Stream → Slot
read_head s = get_or s.slots s.read_slot empty_slot

-- `(slot->flags & CLP_STREAM_SLOT_READY) == 0 || slot->length == 0`
abbrev pub not_ready : Slot → Bool
not_ready slot = bit_and slot.flags slot_ready == 0 || slot.length == 0

unfoldable pub consumer_peek : Stream → View × ℤ
consumer_peek s =
    let slot = read_head s in
    if no_slots s.slots
      || s.buffer == 0
      || s.slot_count == 0
      || ltb s.slot_count s.ready_slots
      || leb s.slot_count s.read_slot
    then (no_view, err_invalid)
    else if s.ready_slots == 0
    then (no_view, err_empty)
    else if not_ready slot
    then (no_view, err_empty)
    else if ltb s.slot_size slot.length || leb slot.length s.read_offset
    then (no_view, err_invalid)
    else (
      record {
        data_at = s.buffer + u32 (s.read_slot * s.slot_size) + s.read_offset;
        offset = u32 (slot.offset + s.read_offset);
        length = u16 (slot.length - s.read_offset);
        flags = slot.flags;
        slot_index = s.read_slot;
      },
      pos 0,
    )

-- The guards that both releases share: the error, if there is one.
unfoldable pub release_guard : Stream → Option ℤ
release_guard s =
    let slot = read_head s in
    if no_slots s.slots
      || s.slot_count == 0
      || ltb s.slot_count s.ready_slots
      || leb s.slot_count s.read_slot
    then some err_invalid
    else if s.ready_slots == 0
    then some err_empty
    else if not_ready slot || ltb s.slot_size slot.length || leb slot.length s.read_offset
    then some err_invalid
    else none

unfoldable pub consumer_release : Stream → Stream × ℤ
consumer_release s = elim (release_guard s) [
  | some e ↦ (s, e)
  | none ↦ (
    record s {
      slots = set s.slots s.read_slot (record (read_head s) { length = 0; flags = slot_consumed });
      read_offset = 0;
      read_slot = next_slot s.slot_count s.read_slot;
      ready_slots = s.ready_slots - 1;
    },
    pos 0,
  )
]

unfoldable pub consumer_release_bytes : Stream → ℕ → Stream × ℤ
consumer_release_bytes s length =
    let remaining = u16 ((read_head s).length - s.read_offset) in
    if length == 0 then (s, pos 0) else elim (release_guard s) [
      | some e ↦ (s, e)
      | none ↦
          if ltb remaining length
          then (s, err_too_large)
          else if ltb length remaining
          then (record s { read_offset = u16 (s.read_offset + length) }, pos 0)
          else consumer_release s
    ]

unfoldable pub receive_ptr : Stream → ℕ × ℕ
receive_ptr s =
    let (span, ret) = producer_acquire s in
    elim ret [ pos n ↦ (span.data_at, span.capacity) | negsuc n ↦ (0, 0) ]

unfoldable pub peek : Stream → ℕ × ℕ × ℕ
peek s =
    let (view, ret) = consumer_peek s in
    elim ret [ pos n ↦ (view.data_at, view.length, view.offset) | negsuc n ↦ (0, 0, 0) ]
