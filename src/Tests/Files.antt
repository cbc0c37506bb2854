-- ===== src/Tests/Files.antt =====
-- Concrete runs of the theorems on backends and their files.
use chis_link.Common.{ℕ, ◌+◌, refl, List, [], ◌∷◌, Option, none, some, replicate, pos}
use chis_link.FileFront.{Ops, Backend, Files, free_slot, find_backend}
use chis_link.FileFront.Choice.{Chosen, find_backend-Chosen}
use chis_link.FileFront.Handles.{open_path}
use chis_link.FileFront.Opening.{Opens, open_path-Opens}

-- A backend that counts the files it opened.
abbrev counting : Ops ℕ
counting = record {
  open_file = some (λ path flags opened. (opened + 1, pos 0, opened));
  close_file = none;
  read_file = none;
  write_file = none;
  seek_file = none;
  truncate_file = none;
  flush_file = none;
}

-- "/" and "/sd".
abbrev root : Backend ℕ
root = record { prefix = some (47 ∷ []); prefix_length = 0; ops = some counting }

abbrev card : Backend ℕ
card = record { prefix = some (47 ∷ 115 ∷ 100 ∷ []); prefix_length = 3; ops = some counting }

abbrev table : List (Option (Backend ℕ))
table = none ∷ some card ∷ some root ∷ []

-- "/sd/a"
abbrev path : List ℕ
path = 47 ∷ 115 ∷ 100 ∷ 47 ∷ 97 ∷ []

find_backend-Chosen_example : Chosen path table (find_backend table path)
find_backend-Chosen_example = find_backend-Chosen table path

abbrev files : Files ℕ
files = record { backends = table; slots = replicate 16 free_slot; world = 0 }

open_path-Opens_example : Opens files (open_path files (some path) 1)
open_path-Opens_example = open_path-Opens files (some path) 1 refl
