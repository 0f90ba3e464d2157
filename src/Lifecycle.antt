-- ===== src/Lifecycle.antt =====
-- The lifecycle of backend containers, internal/gateway/lifecycle.go.
pub mod Container
pub mod Careful
pub mod Calls
pub mod Available
mod Port
pub mod Start
pub mod Preflight
mod Tests
