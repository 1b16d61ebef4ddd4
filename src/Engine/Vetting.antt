-- ===== src/Engine/Vetting.antt =====
-- autotrader/main.py: what every method of the engine keeps true of the orders that it places.
pub mod Vetted
pub mod Rules
pub mod Keeps
pub mod Steady
pub mod Submitting
pub mod Stages
pub mod Leaves
pub mod Orders
pub mod Legs
pub mod Window
pub mod Signals
pub mod Ticks
pub mod Liquidation
pub mod Halting
