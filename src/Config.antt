-- ===== src/Config.antt =====
-- The host configuration of internal/config.
pub mod Types
pub mod Values
pub mod Numbers
pub mod Parser
pub mod Quoting
pub mod Comments
pub mod Quote
pub mod Defaults
pub mod Validate
pub mod Accepted
pub mod Unique
pub mod Refused
pub mod Fuel
mod Tests
