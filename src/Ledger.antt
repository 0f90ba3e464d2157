-- ===== src/Ledger.antt =====
-- The ledger of completed and active requests of internal/gateway (observability.go, usage.go and
-- request_reports.go). `F` is the type of the 64-bit floating-point numbers, whose operations are
-- given by `Floats`.
pub mod Usage
pub mod Store
pub mod Maps
pub mod Recent
pub mod Capped
pub mod Throughput
pub mod Totals
pub mod Models
pub mod Sessions
pub mod Active
pub mod Lookup
mod Tests
