-- ===== src/Io.antt =====
-- components/dp_io/dp_io.c: the status light, the lamps of the berth, the button.
pub mod Pins
pub mod Led
pub mod Berth
pub mod Button
mod Examples
