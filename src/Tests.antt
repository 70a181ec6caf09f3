-- ===== src/Tests.antt =====
-- Runs of the definitions at concrete inputs, and the theorems applied at them.
pub mod Lock
pub mod Queues
pub mod Config
pub mod Lighting
pub mod Packets
pub mod Apps
pub mod Flash
pub mod Upload
pub mod Leds
pub mod Stored
pub mod Device
pub mod Services
