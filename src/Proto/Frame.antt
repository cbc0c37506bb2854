-- ===== src/Proto/Frame.antt =====
-- The frame header of proto.h and proto.c: what the words hold, and round trips.
use chis_link.Common.{ℕ, ◌+◌, ◌-◌, ◌*◌, ◌/◌, ◌%◌, ◌^◌, ◌≤◌, ◌<◌, ◌≡◌, arith}
use chis_link.Common.{none, some, ◌≢◌, ◌↔◌}
use chis_link.Common.{u32, IsByte, IsU16, IsU32}
use chis_link.Common.Bits.Fields.{
  masked_field, bit_and_shifted, bit_and_low, bit_or_side_by_side, bit_or_comm,
}
use chis_link.Proto.{Header, version, make_word, make_seq_flags, pack_file_meta}
use chis_link.Proto.{word_version, word_type, word_channel, word_opcode, word_imm}
use chis_link.Proto.{seq_from_word, flags_from_word, is_protocol_word}
use chis_link.Proto.{file_meta_alignment, file_meta_type, file_meta_flags}
use chis_link.Proto.{decode_header_words, encode_header_words, aligned_length}

-- The command word in plain arithmetic.
pub make_word_value :
    (t c o i : ℕ)
    → IsByte c
    → IsByte o
    → IsByte i
    → make_word t c o i ≡ 2 * 2 ^ 28 + t % 16 * 2 ^ 24 + c * 2 ^ 16 + o * 2 ^ 8 + i
unfolding make_word
make_word_value t c o i hc ho hi = ground (
  arith,
  bit_and_low 4 t,
  bit_or_side_by_side 24 32 (t % 16 * 2 ^ 24),
  bit_or_side_by_side 28 2 (t % 16 * 2 ^ 24),
  bit_or_side_by_side 24 (32 + t % 16) (c * 2 ^ 16),
  bit_or_side_by_side 16 ((32 + t % 16) * 256 + c) (o * 2 ^ 8),
  bit_or_side_by_side 8 (((32 + t % 16) * 256 + c) * 256 + o) i,
)

pub word_version_value : (w : ℕ) → IsU32 w → word_version w ≡ w / 2 ^ 28
unfolding word_version
word_version_value w h = omega (arith, masked_field 28 4 w)

pub word_type_value : (w : ℕ) → word_type w ≡ w / 2 ^ 24 % 16
unfolding word_type
word_type_value w = omega (arith, masked_field 24 4 w)

pub word_channel_value : (w : ℕ) → word_channel w ≡ w / 2 ^ 16 % 256
unfolding word_channel
word_channel_value w = omega (arith, masked_field 16 8 w)

pub word_opcode_value : (w : ℕ) → word_opcode w ≡ w / 2 ^ 8 % 256
unfolding word_opcode
word_opcode_value w = omega (arith, masked_field 8 8 w)

pub word_imm_value : (w : ℕ) → word_imm w ≡ w % 256
unfolding word_imm
word_imm_value w = omega (arith, bit_and_low 8 w)

pub make_seq_flags_value :
    (seq flags : ℕ) → IsU16 seq → IsU16 flags → make_seq_flags seq flags ≡ seq * 2 ^ 16 + flags
unfolding make_seq_flags
make_seq_flags_value seq flags hs hf = ground (arith, bit_or_side_by_side 16 seq flags)

pub seq_from_word_value : (w : ℕ) → IsU32 w → seq_from_word w ≡ w / 2 ^ 16
unfolding seq_from_word
seq_from_word_value w h = omega arith

pub flags_from_word_value : (w : ℕ) → flags_from_word w ≡ w % 2 ^ 16
unfolding flags_from_word
flags_from_word_value w = omega (arith, bit_and_low 16 w)

-- Every field of a header fits its type, and the packet type fits the four bits of the word.
pub record IsValid (h : Header) : Type 0 where
  pub type : h.type < 16
  pub channel : IsByte h.channel
  pub opcode : IsByte h.opcode
  pub imm : IsByte h.imm
  pub length : IsU32 h.length
  pub seq : IsU16 h.seq
  pub flags : IsU16 h.flags
  pub crc32 : IsU32 h.crc32

-- Each accessor of a command word returns the field that the word was made of.
pub make_word_fields :
    (t c o i : ℕ)
    → t < 16
    → IsByte c
    → IsByte o
    → IsByte i
    → (word_version (make_word t c o i) ≡ version)
      × (word_type (make_word t c o i) ≡ t)
      × (word_channel (make_word t c o i) ≡ c)
      × (word_opcode (make_word t c o i) ≡ o)
      × (word_imm (make_word t c o i) ≡ i)
      × IsU32 (make_word t c o i)
make_word_fields t c o i ht hc ho hi =
    let w = make_word t c o i in
    ground (
      arith,
      make_word_value t c o i hc ho hi,
      word_version_value w,
      word_type_value w,
      word_channel_value w,
      word_opcode_value w,
      word_imm_value w,
    )

-- A header whose fields fit their types and whose packet type fits four bits survives encoding and
-- decoding.
pub decode-encode : (h : Header) → IsValid h → decode_header_words (encode_header_words h) ≡ some h
unfolding decode_header_words encode_header_words is_protocol_word
decode-encode h v = ground (
  arith,
  make_word_fields h.type h.channel h.opcode h.imm v.type v.channel v.opcode v.imm,
  make_seq_flags_value h.seq h.flags v.seq v.flags,
  seq_from_word_value (make_seq_flags h.seq h.flags),
  flags_from_word_value (make_seq_flags h.seq h.flags),
)

-- The decoder accepts exactly the word groups whose first word carries the protocol version.
pub decode-none_iff :
    (w0 w1 w2 w3 : ℕ)
    → IsU32 w0
    → (decode_header_words (w0, w1, w2, w3) ≡ none) ↔ (w0 / 2 ^ 28 ≢ version)
unfolding decode_header_words is_protocol_word
decode-none_iff w0 w1 w2 w3 h =
    (ground (arith, word_version_value w0 h), ground (arith, word_version_value w0 h))

-- Words that the decoder accepts are those that the encoder makes of the decoded header.
pub encode-decode :
    (w0 w1 w2 w3 : ℕ) (h : Header)
    → IsU32 w0
    → IsU32 w2
    → decode_header_words (w0, w1, w2, w3) ≡ some h
    → encode_header_words h ≡ (w0, w1, w2, w3)
unfolding decode_header_words encode_header_words is_protocol_word
encode-decode w0 w1 w2 w3 h h0 h2 e = ground (
  arith,
  make_word_value (word_type w0) (word_channel w0) (word_opcode w0) (word_imm w0),
  word_version_value w0 h0,
  word_type_value w0,
  word_channel_value w0,
  word_opcode_value w0,
  word_imm_value w0,
  make_seq_flags_value (seq_from_word w2) (flags_from_word w2),
  seq_from_word_value w2 h2,
  flags_from_word_value w2,
)

-- The aligned length is the least multiple of four that is not below the length.
pub aligned_length_lem :
    (n : ℕ)
    → n ≤ 4294967292
    → (aligned_length n % 4 ≡ 0) × (n ≤ aligned_length n) × (aligned_length n < n + 4)
unfolding aligned_length
aligned_length_lem n h =
    omega
      (arith, bit_and_shifted 2 (u32 (n + 3)) (2 ^ 30 - 1), bit_and_low 30 (u32 (n + 3) / 2 ^ 2))

-- Packed file metadata is taken apart into what it was made of.
pub file_meta_fields :
    (alignment type flags : ℕ)
    → IsU16 alignment
    → IsByte type
    → IsByte flags
    → (file_meta_alignment (pack_file_meta alignment type flags) ≡ alignment)
      × (file_meta_type (pack_file_meta alignment type flags) ≡ type)
      × (file_meta_flags (pack_file_meta alignment type flags) ≡ flags)
unfolding pack_file_meta file_meta_alignment file_meta_type file_meta_flags
file_meta_fields alignment type flags ha ht hf = ground (
  arith,
  bit_or_comm alignment (type * 2 ^ 16),
  bit_or_side_by_side 16 type alignment,
  bit_or_comm (type * 2 ^ 16 + alignment) (flags * 2 ^ 24),
  bit_or_side_by_side 24 flags (type * 2 ^ 16 + alignment),
  bit_and_low 16 (flags * 2 ^ 24 + (type * 2 ^ 16 + alignment)),
  bit_and_low 8 ((flags * 2 ^ 24 + (type * 2 ^ 16 + alignment)) / 2 ^ 16),
  bit_and_low 8 ((flags * 2 ^ 24 + (type * 2 ^ 16 + alignment)) / 2 ^ 24),
)
