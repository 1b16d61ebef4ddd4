-- ===== src/Session.antt =====
-- The session around the engine: the entry gate, the watchdog, the schedule, the calendar.
pub mod Gate
pub mod Watchdog
pub mod Schedule
pub mod Calendar
pub mod Tests
