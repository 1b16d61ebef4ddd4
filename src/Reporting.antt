-- ===== src/Reporting.antt =====
-- autotrader/reporting: the figures and the labels of the report at the end of the day.
pub mod Pnl
pub mod OptionCode
pub mod Classify
pub mod Economics
pub mod Proven
pub mod Tests
pub mod Runs
