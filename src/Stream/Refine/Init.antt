-- ===== src/Stream/Refine/Init.antt =====
-- `cl_stream_init` and `cl_stream_reset`.
use chis_link.Common.{ℕ, zero, suc, ◌+◌, ◌*◌, ◌%◌, ◌≤◌, ◌↔◌, ◌<◌, ◌≡◌, inl, inr, refl, ◌∙◌, arith}
use chis_link.Common.{List, [], true, Bool-cases, some, none, IsU16, pos, set, length, length-set}
use chis_link.Common.Products.{small_product, positive_product}
use chis_link.Common.Bits.Fields.{bit_and_low}
use chis_link.Common.{bit_or}
use chis_link.Stream.Refine.Simulation.{has_slots}
use chis_link.Stream.{idle, flags_for_profile}
use chis_link.Stream.{Slot, Stream, empty_slot, Config, valid_config, clear_slots, init, reset}
use chis_link.Stream.Pending.{IsValid, pending}

length-clear_slots :
    (left i : ℕ) (slots : List Slot) → length (clear_slots left i slots) ≡ length slots
unfolding clear_slots
length-clear_slots zero i slots = refl
length-clear_slots (suc left) i slots =
    length-clear_slots left (i + 1) (set slots i empty_slot) ∙ length-set slots i empty_slot

-- `cl_stream_reset` leaves a valid ring valid and empty.
pub reset-IsValid : {s : Stream} → IsValid s → IsValid (reset s) × (pending (reset s) ≡ [])
unfolding reset
reset-IsValid {s} v = (
  record {
    buffer_set = v.buffer_set;
    slot_room = omega (arith, v.slot_room, length-clear_slots s.slot_count 0 s.slots);
    some_slots = v.some_slots;
    few_slots = v.few_slots;
    some_size = v.some_size;
    size_fits = v.size_fits;
    buffer_room = v.buffer_room;
    read_in = v.some_slots;
    write_in = v.some_slots;
    ready_in = omega arith;
    round = omega arith;
    data_ready = tt;
    offset_in = λ p. absurd (omega arith);
    offset_idle = λ e. refl;
  },
  refl,
)

-- The configuration's numbers fit the fields that hold them, and the slot array has a slot for each.
pub record FitsConfig (c : Config) : Type 0 where
  pub few_slots : c.slot_count < 256
  pub small_slots : IsU16 c.slot_size
  pub room : c.slot_count ≤ length c.slots

-- An aligned buffer that is large enough for all slots.
pub record IsAcceptable (c : Config) : Type 0 where
  pub buffer_set : 0 < c.buffer
  pub aligned : c.buffer % 4 ≡ 0
  pub some_slots : 0 < c.slot_count
  pub some_size : 0 < c.slot_size
  pub large : c.slot_count * c.slot_size ≤ c.buffer_size

valid_config_iff : (c : Config) → FitsConfig c → (valid_config c ≡ true) ↔ IsAcceptable c
unfolding valid_config
valid_config_iff c f = (
  λ e. ground (
    arith,
    bit_and_low 2 c.buffer,
    small_product c.slot_count c.slot_size f.few_slots f.small_slots,
  ),
  λ a. ground (
    arith,
    a.aligned,
    has_slots c.slots (omega (arith, f.room, a.some_slots)),
    bit_and_low 2 c.buffer,
    positive_product c.slot_count c.slot_size a.some_slots a.some_size,
    small_product c.slot_count c.slot_size f.few_slots f.small_slots,
  ),
)

-- `cl_stream_init` makes a valid, empty ring of every acceptable configuration, with its limits, and
-- refuses every other one.
pub init_lem :
    (c : Config)
    → FitsConfig c
    → (IsAcceptable c
        → (s : Stream) × (init c ≡ some s)
          × IsValid s
          × (pending s ≡ [])
          × (s.slot_count ≡ c.slot_count)
          × (s.slot_size ≡ c.slot_size))
      × (¬ IsAcceptable c → init c ≡ none)
unfolding init
init_lem c f = (
  λ a. (
    fresh,
    rw ((valid_config_iff c f).1 a),
    record {
      buffer_set = a.buffer_set;
      slot_room = omega (arith, f.room, length-clear_slots c.slot_count 0 c.slots);
      some_slots = a.some_slots;
      few_slots = f.few_slots;
      some_size = a.some_size;
      size_fits = f.small_slots;
      buffer_room = a.large;
      read_in = a.some_slots;
      write_in = a.some_slots;
      ready_in = omega arith;
      round = omega arith;
      data_ready = tt;
      offset_in = λ p. absurd (omega arith);
      offset_idle = λ e. refl;
    },
    refl,
    refl,
    refl,
  ),
  λ no_good. elim (Bool-cases (valid_config c)) [
    | inl e ↦ absurd (no_good ((valid_config_iff c f).0 e))
    | inr e ↦ rw e
  ],
)
  where
    fresh : Stream
    fresh = record {
      buffer = c.buffer;
      buffer_size = c.buffer_size;
      slots = clear_slots c.slot_count 0 c.slots;
      flags = bit_or c.flags (flags_for_profile c.profile);
      slot_size = c.slot_size;
      slot_count = c.slot_count;
      read_slot = 0;
      write_slot = 0;
      ready_slots = 0;
      state = idle;
      read_offset = 0;
      profile = c.profile;
      stream_id = 0;
      rx_offset = 0;
      tx_offset = 0;
      remote_size_low = 0;
      remote_size_high = 0;
      last_error = pos 0;
    }

-- Initialising with an acceptable configuration, whose numbers fit their fields and whose slot
-- array is large enough, gives a valid, empty ring with its limits.
pub init_accepts :
    (c : Config)
    → FitsConfig c
    → IsAcceptable c
    → (s : Stream) × (init c ≡ some s)
      × IsValid s
      × (pending s ≡ [])
      × (s.slot_count ≡ c.slot_count)
      × (s.slot_size ≡ c.slot_size)
init_accepts c f a = (init_lem c f).0 a

-- Initialising with a configuration that fits its fields but is not acceptable (no or unaligned
-- buffer, no slots, no slot size, or a buffer too small for the slots) fails.
pub init_refuses : (c : Config) → FitsConfig c → ¬ IsAcceptable c → init c ≡ none
init_refuses c f a = (init_lem c f).1 a
