-- ===== src/Sim.antt =====
-- autotrader/sim_broker.py: the broker in memory and its book.
pub mod Broker
pub mod Book
pub mod Tests
