-- ===== src/Mac.antt =====
-- The MAC layer of lorawan-device.
pub mod Uplink
pub mod Counter
pub mod Settings
pub mod Session
pub mod Otaa
pub mod Machine
mod Tests
