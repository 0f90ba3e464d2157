-- ===== src/Statistics.antt =====
-- The gateway's statistics, internal/gateway/statistics.go and statistics_sqlite.go.
pub mod Queue
pub mod Wrapping
pub mod Account
pub mod Stage
pub mod Batches
pub mod Sound
pub mod Counters
pub mod Event
pub mod Snapshot
pub mod Sums
mod Tests
