-- ===== src/Identity.antt =====
-- Accounts, sessions and the second factor: internal/platform/identity.
pub mod Model
pub mod Sessions
pub mod Factor
pub mod Admission
pub mod Replay
pub mod Consumption
pub mod Codes
mod Tests
