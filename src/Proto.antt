-- ===== src/Proto.antt =====
-- common/chislink_proto/include/chislink/proto.h and common/chislink_proto/src/proto.c: the command
-- word, the frame header of four words, packed metadata words, and little-endian words in memory.
pub mod Frame
pub mod Bytes
pub mod Codes
use chis_link.Common.{ℕ, zero, suc, ◌+◌, ◌-◌, ◌*◌, ◌%◌, bit_and, bit_or, List, [], ◌∷◌}
use chis_link.Common.{Bool, true, false, Option, none, some, ltb, ◌==◌, if◌then◌else◌, get_or, set}
use chis_link.Common.{u8, u16, u32, ◌<<<◌, ◌>>>◌}

abbrev pub version : ℕ
version = 2

-- `clp_header_t`
pub record Header : Type 0 where
  pub type : ℕ
  pub channel : ℕ
  pub opcode : ℕ
  pub imm : ℕ
  pub length : ℕ
  pub seq : ℕ
  pub flags : ℕ
  pub crc32 : ℕ

unfoldable pub make_word : ℕ → ℕ → ℕ → ℕ → ℕ
make_word type channel opcode imm =
    bit_or
      (bit_or (bit_or (bit_or (version <<< 28) (bit_and type 0x0f <<< 24)) (channel <<< 16))
        (opcode <<< 8))
      imm

unfoldable pub word_version : ℕ → ℕ
word_version word = u8 (bit_and word 0xf0000000 >>> 28)

unfoldable pub word_type : ℕ → ℕ
word_type word = u8 (bit_and word 0x0f000000 >>> 24)

unfoldable pub word_channel : ℕ → ℕ
word_channel word = u8 (bit_and word 0x00ff0000 >>> 16)

unfoldable pub word_opcode : ℕ → ℕ
word_opcode word = u8 (bit_and word 0x0000ff00 >>> 8)

unfoldable pub word_imm : ℕ → ℕ
word_imm word = u8 (bit_and word 0x000000ff)

unfoldable pub make_seq_flags : ℕ → ℕ → ℕ
make_seq_flags seq flags = bit_or (seq <<< 16) flags

unfoldable pub seq_from_word : ℕ → ℕ
seq_from_word word = u16 (word >>> 16)

unfoldable pub flags_from_word : ℕ → ℕ
flags_from_word word = u16 (bit_and word 0xffff)

unfoldable pub pack_file_meta : ℕ → ℕ → ℕ → ℕ
pack_file_meta alignment type flags = bit_or (bit_or alignment (type <<< 16)) (flags <<< 24)

unfoldable pub file_meta_alignment : ℕ → ℕ
file_meta_alignment word = u16 (bit_and word 0xffff)

unfoldable pub file_meta_type : ℕ → ℕ
file_meta_type word = u8 (bit_and (word >>> 16) 0xff)

unfoldable pub file_meta_flags : ℕ → ℕ
file_meta_flags word = u8 (bit_and (word >>> 24) 0xff)

unfoldable pub is_protocol_word : ℕ → Bool
is_protocol_word word = word_version word == version

-- The four words of a frame header.
abbrev pub HeaderWords : Type 0
HeaderWords = ℕ × ℕ × ℕ × ℕ

-- `none` is the result `false`, which leaves `*out` as it was.
unfoldable pub decode_header_words : HeaderWords → Option Header
decode_header_words (w0, w1, w2, w3) =
    if is_protocol_word w0
    then some (record {
      type = word_type w0;
      channel = word_channel w0;
      opcode = word_opcode w0;
      imm = word_imm w0;
      length = w1;
      seq = seq_from_word w2;
      flags = flags_from_word w2;
      crc32 = w3;
    })
    else none

unfoldable pub encode_header_words : Header → HeaderWords
encode_header_words h =
    (make_word h.type h.channel h.opcode h.imm, h.length, make_seq_flags h.seq h.flags, h.crc32)

-- `size_t` is 32 bits wide on the GBA; `~(size_t)3u` is 0xfffffffc.
unfoldable pub aligned_length : ℕ → ℕ
aligned_length length = bit_and (u32 (length + 3)) 0xfffffffc

-- `clp_load_le32`, `for (i = 0; i < 4 && i < available; ++i)`: the first argument counts the rounds
-- that `i < 4` leaves.
load_rounds : ℕ → ℕ → List ℕ → ℕ → ℕ → ℕ
load_rounds zero i src available word = word
load_rounds (suc k) i src available word =
    let next = load_rounds k (i + 1) src available (bit_or word (get_or src i 0 <<< (i * 8))) in
    if ltb i available then next else word

unfoldable pub load_le32 : List ℕ → ℕ → ℕ
unfolding load_rounds
load_le32 src available = load_rounds 4 0 src available 0

store_rounds : ℕ → ℕ → List ℕ → ℕ → ℕ → List ℕ
store_rounds zero i dst word available = dst
store_rounds (suc k) i dst word available =
    let next = store_rounds k (i + 1) (set dst i (u8 (word >>> (i * 8)))) word available in
    if ltb i available then next else dst

-- `clp_store_le32`
unfoldable pub store_le32 : List ℕ → ℕ → ℕ → List ℕ
unfolding store_rounds
store_le32 dst word available = store_rounds 4 0 dst word available
