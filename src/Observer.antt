-- ===== src/Observer.antt =====
-- The observer of upstream responses of internal/gateway/observability.go, and what it decodes.
pub mod State
pub mod Json
pub mod Framing
pub mod Observe
pub mod Chunks
pub mod Bounds
pub mod Whole
mod Tests
