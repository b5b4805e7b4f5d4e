-- ===== src/Sensor.antt =====
-- The sensor node: its side of the mesh, its battery, and the loop of main/sensor_main.c.
pub mod Node
pub mod Ready
pub mod Delivery
pub mod Report
pub mod Startup
pub mod Battery
pub mod Loop
pub mod Lamps
mod Examples
