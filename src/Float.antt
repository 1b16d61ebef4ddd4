-- ===== src/Float.antt =====
-- Python's `float` as an interface: the operations that the program applies to prices, amounts and
-- ratios. The model computes with any such type; the laws that a proof needs of it are named.
mod Decimal
mod Defs
pub use Decimal.*
pub use Defs.*
