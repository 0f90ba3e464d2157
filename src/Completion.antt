-- ===== src/Completion.antt =====
-- The collector of finish reasons of internal/gateway/completion.go.
pub mod Collector
pub mod Sound
mod Tests
