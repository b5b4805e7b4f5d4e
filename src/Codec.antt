-- ===== src/Codec.antt =====
-- components/dp_common: the messages of the mesh and their little-endian wire format
-- (dp_common.c, include/dp_common.h). A pointer argument is an `Option`, a buffer is the list of
-- its bytes, and `target_state`, an `int8_t`, is kept as its byte.
pub mod Messages
pub mod Status
pub mod Diag
mod Examples
