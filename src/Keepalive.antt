-- ===== src/Keepalive.antt =====
-- The keepalive comments in streamed responses, internal/gateway/stream_keepalive.go.
pub mod Framing
pub mod Read
pub mod Frames
pub mod Answers
mod Tests
