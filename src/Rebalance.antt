-- ===== src/Rebalance.antt =====
-- autotrader/rebalance.py: the definitions, which the parent passes on, and their theorems.
mod Defs
unfoldable pub use Defs.*
pub mod Trades
pub mod Safety
pub mod Tests
