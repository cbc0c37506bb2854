-- ===== src/Common/Bits.antt =====
-- The bit operations at variables: one equation for the lowest digit of each, then masks, fields
-- of a word, and the laws of exclusive or.
mod Digits
pub use Digits.{bit_and_step, bit_or_step, bit_xor_step}
pub mod Fields
pub mod Xor
