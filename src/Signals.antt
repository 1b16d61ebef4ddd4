-- ===== src/Signals.antt =====
-- autotrader/signals: the normalisation of a payload and what its signals satisfy; the two dialects
-- of the routine that become payloads, and the webhook that takes them.
pub mod Normalize
pub mod Valid
pub mod Json
pub mod Coerce
pub mod Routine
pub mod Agree
pub mod Webhook
pub mod Lost
pub mod Inbox
pub mod Tests
pub mod Runs
