-- ===== src/Audit.antt =====
-- The audit log and its hash chain: internal/platform/audit/audit.go and chain.go.
pub mod Encoding
pub mod Chain
pub mod Verify
pub mod Walk
pub mod Intact
pub mod Verified
pub mod Log
pub mod Tamper
mod Tests
