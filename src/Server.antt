-- ===== src/Server.antt =====
-- The chat handler of internal/gateway/server.go, on the ledger, the statistics and the scheduler.
pub mod Exchange
pub mod Chat
pub mod Protocol
pub mod Ordered
pub mod Shown
pub mod Records
pub mod Together
pub mod ReportId
pub mod Report
mod Tests
