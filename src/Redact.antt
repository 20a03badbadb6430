-- ===== src/Redact.antt =====
-- What a proxied answer of the cloud may contain by the time a device sees it: `http/redact`.
pub mod Model
pub mod Blocking
pub mod Rules
pub mod Walker
pub mod Body
mod Tests
