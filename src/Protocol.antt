-- ===== src/Protocol.antt =====
-- The wire protocol: src/video_bridge/include/advc/protocol.h and src/video_bridge/src/protocol.c.
-- The bounds stand in Limits, the byte accessors in Wire, the header record in Header.
pub mod Limits
pub mod Wire
pub mod Header
pub mod RoundTrip
pub mod Messages
mod Examples
