-- ===== src/Stream.antt =====
-- stream.go: the two halves of a stream, and the stream that holds them.
pub mod Recv
pub mod Send
pub mod Transfer
mod Tests
