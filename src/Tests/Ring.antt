-- ===== src/Tests/Ring.antt =====
-- Concrete runs of the ring's theorems.
use chis_link.Common.{◌+◌, ◌≤◌, ◌<◌, ◌≡◌, refl, arith, List, [], ◌∷◌, ◌⊎◌, some, none, pos}
use chis_link.Stream.{
  Config, Stream, opened, slot_ready, empty_slot, err_full, init, producer_acquire,
  producer_commit_at, consumer_peek, consumer_release_bytes,
}
use chis_link.Stream.Fifo
use chis_link.Stream.Pending.{IsValid, pending}
use chis_link.Stream.Refine.Simulation.{Refines}
use chis_link.Stream.Refine.Commit.{commit-Refines}
use chis_link.Stream.Refine.Release.{release_bytes-Refines}
use chis_link.Stream.Refine.Run.{
  Op, commit, peek, release, release_bytes, run, run_fifo, run_refines,
}
use chis_link.Stream.Refine.Init.{FitsConfig, IsAcceptable, init_accepts, init_refuses}
use chis_link.Stream.Bounds.{acquire_bounds, acquire_peek_apart}

-- Three slots of 8 bytes, one of which holds 5 bytes, the first two of them read.
abbrev pub ring : Stream
ring = record {
  buffer = 4096;
  buffer_size = 24;
  slots = empty_slot ∷ empty_slot ∷ record { offset = 0; length = 5; flags = slot_ready } ∷ [];
  flags = 0;
  slot_size = 8;
  slot_count = 3;
  read_slot = 2;
  write_slot = 0;
  ready_slots = 1;
  state = opened;
  read_offset = 2;
  profile = 0;
  stream_id = 1;
  rx_offset = 5;
  tx_offset = 0;
  remote_size_low = 0;
  remote_size_high = 0;
  last_error = pos 0;
}

pub ring-IsValid : IsValid ring
ring-IsValid = record {
  buffer_set = omega arith;
  slot_room = omega arith;
  some_slots = omega arith;
  few_slots = omega arith;
  some_size = omega arith;
  size_fits = omega arith;
  buffer_room = omega arith;
  read_in = omega arith;
  write_in = omega arith;
  ready_in = omega arith;
  round = omega arith;
  data_ready = (
    record { flag = refl; offset_fits = omega arith; some_bytes = omega arith; fits = omega arith },
    tt,
  );
  offset_in = λ h. omega arith;
  offset_idle = λ h. omega arith;
}

abbrev ops : List Op
ops = commit (record { offset = 5; count = 8 }) ∷ release_bytes 3 ∷ peek ∷ release ∷ release ∷ []

run_refines_example : run ring ops ≡ run_fifo 3 8 (pending ring) ops
run_refines_example = run_refines ops ring-IsValid (omega arith, (tt, (tt, (tt, (tt, tt)))))

commit-Refines_example :
    Refines
      (Fifo.commit 3 8 (pending ring) (record { offset = 5; count = 8 }))
      (producer_commit_at ring 5 8)
commit-Refines_example = commit-Refines 5 8 ring-IsValid (omega arith)

release_bytes-Refines_example :
    Refines (Fifo.release_bytes 2 (pending ring)) (consumer_release_bytes ring 2)
release_bytes-Refines_example = release_bytes-Refines 2 ring-IsValid

acquire_bounds_example :
    let (span, ret) = producer_acquire ring in
    ((ring.ready_slots < ring.slot_count)
      × (ret ≡ pos 0)
      × (span.capacity ≡ 8)
      × (4096 ≤ span.data_at)
      × (span.data_at + span.capacity ≤ 4096 + 24))
    ⊎ ((ring.ready_slots ≡ ring.slot_count) × (ret ≡ err_full) × (span.data_at ≡ 0))
acquire_bounds_example = acquire_bounds ring-IsValid

acquire_peek_apart_example :
    let (span, _) = producer_acquire ring in
    let (view, _) = consumer_peek ring in
    (span.data_at + span.capacity ≤ view.data_at) ⊎ (view.data_at + view.length ≤ span.data_at)
acquire_peek_apart_example = acquire_peek_apart ring-IsValid (omega arith) (omega arith)

abbrev config : Config
config = record {
  buffer = 4096;
  buffer_size = 24;
  slots = empty_slot ∷ empty_slot ∷ empty_slot ∷ [];
  slot_count = 3;
  slot_size = 8;
  flags = 0;
  profile = 0;
}

config_fits : FitsConfig config
config_fits = record { few_slots = omega arith; small_slots = omega arith; room = omega arith }

config-IsAcceptable : IsAcceptable config
config-IsAcceptable = record {
  buffer_set = omega arith;
  aligned = omega arith;
  some_slots = omega arith;
  some_size = omega arith;
  large = omega arith;
}

init_accepts_example :
    (s : Stream) × (init config ≡ some s)
    × IsValid s
    × (pending s ≡ [])
    × (s.slot_count ≡ 3)
    × (s.slot_size ≡ 8)
init_accepts_example = init_accepts config config_fits config-IsAcceptable

-- A buffer that is one byte short.
abbrev short_config : Config
short_config = record config { buffer_size = 23 }

short_fits : FitsConfig short_config
short_fits = record { few_slots = omega arith; small_slots = omega arith; room = omega arith }

short_unacceptable : ¬ IsAcceptable short_config
short_unacceptable a = omega (arith, a.large)

init_refuses_example : init short_config ≡ none
init_refuses_example = init_refuses short_config short_fits short_unacceptable
