-- ===== src/Controls.antt =====
-- The closed values that the gateway reads out of a request: internal/gateway/observability.go.
pub mod Conflict
pub mod Session
pub mod Bounded
mod Tests
