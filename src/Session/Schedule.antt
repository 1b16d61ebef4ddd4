-- ===== src/Session/Schedule.antt =====
-- autotrader/scheduler.py: the definitions, which the parent passes on, and what a poll fires.
mod Defs
pub mod Firing
unfoldable pub use Defs.*
