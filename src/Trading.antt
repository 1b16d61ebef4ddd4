-- ===== src/Trading.antt =====
-- How a signal becomes an order: the limit price and the size. The signals' strategies.
pub mod Pricing
pub mod Sizing
pub mod Clearance
pub mod Strategies
pub mod Tests
