-- ===== src/Streams.antt =====
-- stream.go and stream_manager.go: the streams of a session, with the paths that each one uses.
pub mod StreamImpl
pub mod Attached
pub mod Writes
pub mod Manager
pub mod Numbers
pub mod Stuck
mod Tests
