-- ===== src/Jobs.antt =====
-- The durable job queue (internal/platform/jobs).
pub mod Model
pub mod Store
pub mod Scope
pub mod Submit
pub mod Worker
pub mod Invariant
pub mod Execute
pub mod Preservation
pub mod Transactions
pub mod Leases
pub mod Finished
pub mod Recovery
pub mod Retention
pub mod History
pub mod Kept
pub mod Idempotency
pub mod Repeated
pub mod Sorting
pub mod Normal
pub mod Execution
pub mod Claim
pub mod Access
pub mod Redact
pub mod Visible
pub mod Clean
mod Sample
mod Tests
mod Runs
