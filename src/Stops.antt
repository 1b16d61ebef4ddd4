-- ===== src/Stops.antt =====
-- autotrader/stops.py: the reconcile of the stops, and what its sweep cancels.
pub mod Orphans
pub mod Reconcile
pub mod Attachment
pub mod Step
pub mod Sweep
pub mod Tests
