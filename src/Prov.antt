-- ===== src/Prov.antt =====
-- components/dp_prov: the gateway's table of adopted nodes, kept in NVS (dp_prov.c).
pub mod Table
pub mod Map
pub mod Swap
pub mod Valid
pub mod Store
pub mod Factory
pub mod Refine
pub mod Boot
mod Examples
