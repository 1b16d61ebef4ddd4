-- ===== src/Db.antt =====
-- autotrader/db.py: the tables, and what the projection keeps of the broker.
pub mod Tables
pub mod Mirror
pub mod Sync
pub mod Targets
pub mod Listing
pub mod Tests
