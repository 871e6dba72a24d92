-- ===== src/Prelude/Bits.antt =====
-- `&`, `|` and `^` as arithmetic, where one operand is a mask or the operands are disjoint.
mod Digits
mod Masks
mod Flags
mod Fields
pub use Digits.*
pub use Masks.*
pub use Fields.*
pub use Flags.*
