-- ===== src/Events.antt =====
-- addon/petkit_local/events: the protocol's event codes, and the Timeline's sessions.
pub mod Codes
pub mod Sessions
mod Tests
