-- ===== src/Http.antt =====
-- kwikhttp: HTTP messages as texts, and the server.
pub mod Text
pub mod Numerals
pub mod Headers
pub mod Messages
pub mod Parse
pub mod Lines
pub mod Rebuild
pub mod RoundTrip
pub mod Requests
pub mod Responses
pub mod Cases
pub mod Outcomes
pub mod Server
pub mod Replies
pub mod Routes
mod Tests
