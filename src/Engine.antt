-- ===== src/Engine.antt =====
-- autotrader/router.py, autotrader/main.py and autotrader/breakout_reference.py: the router of the
-- orders, the engine that submits them, and the world that both act on.
pub mod World
pub mod Router
pub mod Audit
pub mod Binds
pub mod Setup
pub mod Escalation
pub mod Trailing
pub mod Overlay
pub mod Route
pub mod Entry
pub mod Deferral
pub mod Tick
pub mod Rebalancing
pub mod LossCheck
pub mod Vetting
pub mod Budget
pub mod Restart
pub mod Session
pub mod Tests
pub mod Runs
