-- ===== src/Selfupdate.antt =====
-- Updating the panel in place: internal/platform/operators/selfupdate. A release is installed as a
-- transaction that is journalled on the disk, activated by a detached helper, and undone when a step fails
-- or the host restarts.
pub mod Host
pub mod Io
pub mod Files
pub mod Release
pub mod Database
pub mod Journal
pub mod Activate
pub mod Apply
pub mod Update
pub mod Frames
pub mod Undo
pub mod Sound
pub mod Safety
pub mod Recovery
pub mod Prepare
pub mod Install
pub mod Wait
pub mod Operations
pub mod Entries
pub mod Resume
pub mod History
pub mod Settled
pub mod Statements
pub mod Stamp
pub mod Agreement
pub mod Verified
pub mod Snapshot
pub mod PutBack
pub mod Restored
mod Tests
