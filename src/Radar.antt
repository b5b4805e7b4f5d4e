-- ===== src/Radar.antt =====
-- components/dp_radar: the HMMD radar driver (dp_radar.c) and the proximity filter
-- (dp_radar_filter.c), in a sensor build.
pub mod Filter
pub mod Frame
pub mod Fake
mod Examples
