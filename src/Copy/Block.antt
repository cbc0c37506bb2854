-- ===== src/Copy/Block.antt =====
-- The block size that copy.c chooses.
use chis_link.Common.{bit_and, ℕ, ◌-◌, ◌*◌, ◌/◌, ◌%◌, ◌^◌, ◌≤◌, ◌<◌, ◌≡◌, arith, ◌⊎◌}
use chis_link.Common.Bits.Fields.{bit_and_shifted, bit_and_low}
use chis_link.Copy.{Source, Sink, Options, limit, choose_block_size, default_block_size}

-- A limit that is set bounds what it limits.
limit_le : (block n : ℕ) → (limit block n ≤ block) × ((n ≡ 0) ⊎ (limit block n ≤ n))
unfolding limit
limit_le block n = ground arith

-- Clearing the two lowest bits.
cleared : (n : ℕ) → n < 4294967296 → bit_and n 0xfffffffc ≡ n / 4 * 4
cleared n h = omega (arith, bit_and_shifted 2 n (2 ^ 30 - 1), bit_and_low 30 (n / 2 ^ 2))

-- The block size of a copy is a multiple of four, at most the default one, and at most each limit
-- of the source, the sink, the options and the buffer that is not 0.
pub choose_block_size_lem :
    {W : Type 0} (source : Source W) (sink : Sink W) (options : Options W)
    → let n = choose_block_size source sink options in
      (n % 4 ≡ 0)
      × (n ≤ default_block_size)
      × ((source.max_block_size ≡ 0) ⊎ (n ≤ source.max_block_size))
      × ((sink.max_block_size ≡ 0) ⊎ (n ≤ sink.max_block_size))
      × ((options.block_size ≡ 0) ⊎ (n ≤ options.block_size))
      × ((options.buffer_size ≡ 0) ⊎ (n ≤ options.buffer_size))
unfolding choose_block_size
choose_block_size_lem source sink options =
    let b1 = limit default_block_size source.preferred_block_size in
    let b2 = limit b1 source.max_block_size in
    let b3 = limit b2 sink.preferred_block_size in
    let b4 = limit b3 sink.max_block_size in
    let b5 = limit b4 options.block_size in
    let b6 = limit b5 options.buffer_size in
    omega (
      arith,
      limit_le default_block_size source.preferred_block_size,
      limit_le b1 source.max_block_size,
      limit_le b2 sink.preferred_block_size,
      limit_le b3 sink.max_block_size,
      limit_le b4 options.block_size,
      limit_le b5 options.buffer_size,
      cleared b6,
    )
