-- ===== src/Mqtt.antt =====
-- The MQTT side: `mqtt/topics.py`, `mqtt/upstream.py` and the client ids of `mqtt/auth.py`.
pub mod Pattern
pub mod Topics
pub mod Relay
pub mod Client
pub mod Links
mod Tests
