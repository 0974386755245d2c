-- ===== src/Schedule.antt =====
-- The schedules of backup plans: internal/platform/operators/backups/schedule.go.
pub mod Cron
pub mod Codes
pub mod Safe
mod Tests
