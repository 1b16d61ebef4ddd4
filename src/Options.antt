-- ===== src/Options.antt =====
-- autotrader/options: the choice of contracts, the registry of overlays, the planner.
pub mod Chain
pub mod Overlays
pub mod Planner
pub mod Legs
pub mod Coverage
pub mod Tests
