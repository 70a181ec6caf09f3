-- ===== src/Ble.antt =====
-- The Bluetooth services: the characteristics of src/ble/service.cc (`Service`), the service of an LED
-- channel (`Leds`), and the connection of src/core/ble.cc (`Conn`).
pub mod Service
pub mod Leds
pub mod Conn
pub mod Chars
pub mod Register
pub mod Dmx
pub mod Events
pub mod Info
pub mod Advdata
