-- ===== src/Uplink.antt =====
-- components/dp_gateway: the gateway's connection to the broker.
pub mod Mqtt
pub mod Slots
pub mod Sessions
pub mod Adopt
pub mod Adoption
pub mod Answers
pub mod Hex
pub mod Calls
pub mod Status
pub mod Diag
pub mod Decom
pub mod Topics
pub mod Wifi
pub mod Startup
pub mod Samples
mod Examples
