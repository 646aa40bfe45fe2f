-- ===== src/Transport.antt =====
-- internal/transport: packets between the streams and the QUIC connections.
pub mod Wire
pub mod Acks
pub mod Packer
pub mod Paths
pub mod PathImpl
pub mod Reception
pub mod AckSender
pub mod Relay
pub mod Multiplexer
mod Tests
