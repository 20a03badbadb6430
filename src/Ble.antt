-- ===== src/Ble.antt =====
-- addon/petkit_local/devices/ble: the frames of the Bluetooth accessories, in both directions.
pub mod Framing
pub mod Block
pub mod Ctw3
pub mod W5
pub mod Command
mod Tests
