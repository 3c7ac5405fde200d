-- ===== src/App.antt =====
-- The application of app/src: its state, its tasks and its handlers.
pub mod State
pub mod Downlink
pub mod Join
pub mod Posting
pub mod Uplink
pub mod Sensor
pub mod Event
pub mod Board
pub mod Adc
pub mod Modbus
pub mod System
pub mod Tasks
pub mod Threads
