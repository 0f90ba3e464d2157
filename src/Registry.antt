-- ===== src/Registry.antt =====
-- Which models the gateway serves, internal/gateway/registry.go.
pub mod State
pub mod Build
pub mod Find
pub mod Sound
pub mod Served
mod Tests
