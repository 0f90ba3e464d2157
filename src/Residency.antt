-- ===== src/Residency.antt =====
-- Which models the backend holds, internal/gateway/residency.go.
pub mod Probe
pub mod Reports
mod Tests
