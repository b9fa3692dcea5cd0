-- ===== src/Bits.antt =====
-- Laws of `&`, `|` and `^` on unsigned words of every width: a word as a high and a low field,
-- masks of adjacent bits, and the four bytes of a 32-bit word.
mod Step
mod Split
mod Mask
mod Xor
pub mod Lanes
pub use Step.{and_digit}
pub use Split.*
pub use Xor.*
pub use Mask.*
