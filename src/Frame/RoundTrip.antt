-- ===== src/Frame/RoundTrip.antt =====
-- Every encoder of src/core/frame.c against `nxp_frame_decode`.
pub mod Common
pub mod Plain
pub mod Carrying
pub mod ConnectionId
pub mod Ack
pub mod Streams
pub mod Padding
pub mod Theorem
