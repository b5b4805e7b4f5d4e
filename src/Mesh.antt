-- ===== src/Mesh.antt =====
-- components/dp_mesh: the Bluetooth mesh of the gateway and of the sensor.
pub mod Wire
pub mod Gateway
pub mod Flow
pub mod Provisioner
pub mod Unbind
pub mod Start
mod Examples
