-- ===== src/Moomoo.antt =====
-- autotrader/moomoo_broker.py and autotrader/rate_limiter.py: the adapter between the trader and the
-- SDK of the broker.
pub mod Limiter
pub mod World
pub mod Orders
pub mod Account
pub mod Windows
pub mod Metered
pub mod Session
pub mod Trusted
pub mod Cancelling
pub mod Market
pub mod Chain
pub mod Highs
pub mod Tests
