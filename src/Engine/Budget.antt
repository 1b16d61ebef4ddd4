-- ===== src/Engine/Budget.antt =====
-- autotrader/main.py: how many orders the stages of an escalation place.
pub mod Costs
pub mod Pegging
