-- ===== src/Risk.antt =====
-- autotrader/risk_core.py and autotrader/risk_check.py: the definitions in `Core`, their theorems beside it.
pub mod Core
pub mod Equity
pub mod Options
pub mod Day
mod Tests
