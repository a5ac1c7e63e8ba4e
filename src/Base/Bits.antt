-- ===== src/Base/Bits.antt =====
-- Bit operations at variables, which the native numbers compute at numerals only.
mod Digits
mod Or
mod And
mod Xor
pub use Or.{bit_or-add}
pub use And.{bit_and-mask}
pub use Xor.{
  bit_xor-lt, bit_xor-shift, bit_xor-mod, bit_xor-zero, bit_xor_comm, bit_xor-cancel_left,
  bit_xor-cancel_right,
}
