-- ===== src/Tests/Tables.antt =====
-- Concrete runs of the theorems on the game table and on the cartridge's handles.
use chis_link.Common.{
  ℕ, zero, suc, ◌+◌, ◌/◌, ◌<◌, ◌≡◌, ◌≢◌, refl, arith, List, [], ◌∷◌, true, false, some, none, pos,
  neg,
}
use chis_link.GameDb.{record_size, sized, record_at, decode_record, search_records, no_save}
use chis_link.GameDb.Order.{code_value}
use chis_link.GameDb.Search.{IsSorted, search_records-found, search_records-missing}
use chis_link.CartFile.{rom, save, Driver, Slot, Cart, open_read}
use chis_link.CartFile.Open.{
  slot_from_local, closed_slot, opened, save_path, open_path, close, kind_from_path, path_eq,
  same_path,
}
use chis_link.CartFile.Handles.{Outcome, open_path-Outcome}
use chis_link.CartFile.Runs.{Call, opens, seeks, flushes, closes, run}
use chis_link.CartFile.Windows.{window_kept}
use chis_link.CartFile.Closed.{closed_stays}

-- Two entries of five bytes, with the codes AAAA and AAAB.
abbrev table : List ℕ
table = 65 ∷ 65 ∷ 65 ∷ 65 ∷ 3 ∷ 65 ∷ 65 ∷ 65 ∷ 66 ∷ 4 ∷ []

abbrev code : ℕ → List ℕ
code last = 65 ∷ 65 ∷ 65 ∷ last ∷ []

table_sized : record_size 10 ≡ sized 5
unfolding record_size
table_sized = refl

table-IsSorted : IsSorted table 5 (10 / 5)
table-IsSorted zero zero p q = absurd (omega arith)
table-IsSorted zero (suc zero) p q = omega arith
table-IsSorted i (suc (suc j)) p q = absurd (omega arith)
table-IsSorted (suc i) (suc zero) p q = absurd (omega arith)
table-IsSorted (suc i) zero p q = absurd (omega arith)

search_records-found_example :
    search_records table 10 (code 66) ≡ decode_record (record_at table 5 1) 5 no_save
search_records-found_example =
    search_records-found table (code 66) 10 5 1 table_sized (omega arith) (omega arith)
      (omega arith) table-IsSorted (omega arith) refl

no_entry : (i : ℕ) → i < 10 / 5 → code_value (record_at table 5 i) ≢ code_value (code 67)
no_entry zero h = omega arith
no_entry (suc zero) h = omega arith
no_entry (suc (suc i)) h = absurd (omega arith)

search_records-missing_example : search_records table 10 (code 67) ≡ (neg 3, no_save)
search_records-missing_example =
    search_records-missing table (code 67) 10 5 table_sized (omega arith) (omega arith)
      (omega arith) no_entry

-- A driver over a counter of its calls, that offers metadata and nothing else.
abbrev driver : Driver ℕ
driver = record {
  info = some (λ calls. (
    calls + 1,
    pos 0,
    record {
      rom_size = 1024;
      save_size = 512;
      can_program_rom = false;
      can_read_save = true;
      can_write_save = true;
      memory = [];
    },
  ));
  read = none;
  direct_read = none;
  release_direct = none;
  write = none;
  set_size = none;
  flush = none;
}

-- The first handle is open, with a window outstanding.
abbrev window_slot : Slot
window_slot = record (opened rom open_read) { direct_active = true }

abbrev cart : Cart ℕ
cart = record {
  driver = driver;
  slots = window_slot ∷ closed_slot ∷ closed_slot ∷ closed_slot ∷ [];
  world = 0;
}

save_kind : kind_from_path (some save_path) ≡ some save
unfolding kind_from_path path_eq same_path
save_kind = refl

open_path-Outcome_example : Outcome cart.slots save 3 (open_path cart (some save_path) 3)
open_path-Outcome_example = open_path-Outcome cart save_path save 3 refl save_kind

first_live : slot_from_local cart.slots 1 ≡ some window_slot
unfolding slot_from_local
first_live = refl

-- While the window is out, another handle is opened, sought and closed, and the first one is sought and flushed.
abbrev calls : List (Call ℕ)
calls = opens (some save_path) 1 ∷ seeks 2 64 ∷ seeks 1 64 ∷ flushes 1 ∷ closes 2 ∷ []

window_kept_example : slot_from_local (run cart calls).slots 1 ≡ some window_slot
window_kept_example =
    window_kept cart calls 1 window_slot first_live refl (refl, (refl, (refl, (refl, (refl, tt)))))

closed_stays_example :
    slot_from_local (run (close cart 1).0 (seeks 1 64 ∷ flushes 2 ∷ [])).slots 1 ≡ none
closed_stays_example = closed_stays cart (seeks 1 64 ∷ flushes 2 ∷ []) 1 refl (refl, (refl, tt))
