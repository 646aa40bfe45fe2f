-- ===== src/Protocol.antt =====
-- internal/protocol: the frames and packets on the wire.
pub mod Errors
pub mod Bytes
pub mod Reader
pub mod Frame
pub mod Parse
pub mod RoundTrip
pub mod Prefix
pub mod Bounds
pub mod Packet
mod Tests
