-- ===== src/CartFile.antt =====
-- gba/sdk/src/cart_file.c (with include/chislink/cart_file.h): the cartridge as files. The driver's
-- callbacks are parameters: each passes the hardware's state `W` through, and NULL is `none`.
pub mod Handles
pub mod Open
pub mod Access
pub mod Writing
pub mod Opened
pub mod Runs
pub mod Windows
pub mod Closed
use chis_link.Common.{
  ℕ, zero, suc, ◌+◌, ◌-◌, ◌%◌, ◌^◌, min, bit_and, bit_or, List, [], ◌∷◌, Bool, true, false, not,
  ◌&&◌, ◌||◌,
}
use chis_link.Common.{
  ltb, leb, ◌==◌, if◌then◌else◌, Option, none, some, get_or, set, take, drop, length, overwrite,
  replicate, ℤ, pos, negsuc, neg, is_neg,
}

-- `cl_cart_file_kind_t`
pub data Kind : Type 0 where
  rom save info : Kind

-- The fields of `cl_cart_info_t` that this file reads, and the bytes of the whole structure.
pub record CartInfo : Type 0 where
  pub rom_size : ℕ
  pub save_size : ℕ
  pub can_program_rom : Bool
  pub can_read_save : Bool
  pub can_write_save : Bool
  pub memory : List ℕ

-- `cl_direct_window_t`; `address` is its `data`, `none` for NULL.
pub record Window : Type 0 where
  pub address : Option ℕ
  pub length : ℕ
  pub access : ℕ

abbrev pub no_window : Window
no_window = record { address = none; length = 0; access = 0 }

-- `cl_cart_driver_ops_t`, with `ctx` in `W`.
pub record Driver (W : Type 0) : Type 0 where
  pub info : Option (W → W × ℤ × CartInfo)
  pub read : Option (Kind → ℕ → List ℕ → ℕ → W → W × ℤ × List ℕ × ℕ)
  pub direct_read : Option (Kind → ℕ → ℕ → W → W × ℤ × Window)
  pub release_direct : Option (Kind → W → W × ℤ)
  pub write : Option (Kind → ℕ → List ℕ → ℕ → W → W × ℤ × ℕ)
  pub set_size : Option (Kind → ℕ → W → W × ℤ)
  pub flush : Option (Kind → W → W × ℤ)

-- `cl_cart_file_slot_t`
pub record Slot : Type 0 where
  pub kind : Kind
  pub flags : ℕ
  pub offset : ℕ
  pub target_size : ℕ
  pub flushed : Bool
  pub direct_active : Bool
  pub is_open : Bool

-- `g_driver` and `g_slots`, with the hardware.
pub record Cart (W : Type 0) : Type 0 where
  pub driver : Driver W
  pub slots : List Slot
  pub world : W

abbrev pub max_handles : ℕ
max_handles = 4

abbrev pub open_read : ℕ
open_read = 0x01

abbrev pub open_write : ℕ
open_write = 0x02

abbrev pub default_block_size : ℕ
default_block_size = 32768

abbrev pub default_alignment : ℕ
default_alignment = 4

abbrev pub file_regular : ℕ
file_regular = 1

-- `sizeof(cl_cart_info_t)`: ten words, eight bytes, 18 characters, and two bytes of padding.
abbrev pub info_bytes : ℕ
info_bytes = 68

abbrev pub has_flag : ℕ → ℕ → Bool
has_flag flags flag = not (bit_and flags flag == 0)

abbrev pub is_zero : ℤ → Bool
is_zero ret = elim ret [ pos n ↦ n == 0 | negsuc n ↦ false ]

abbrev pub is_info : Kind → Bool
is_info rom = false
is_info save = false
is_info info = true
