-- ===== src/Sampling.antt =====
-- The managed sampling policy of internal/gateway/sampling.go.
pub mod Policy
pub mod Modes
pub mod Agrees
pub mod Rewrite
pub mod Filled
mod Tests
