-- ===== src/Runner.antt =====
-- autotrader/runner.py: the loop that runs the jobs of the day, the engine's tick and the inbox.
pub mod Jobs
pub mod Safety
pub mod Tests
