-- ===== src/Limiter.antt =====
-- The two fixed-window limiters: internal/platform/identity/limiter.go and
-- internal/platform/httpapi/throttle.go.
pub mod Buckets
pub mod Attempts
pub mod Throttle
pub mod Bounds
pub mod Budget
pub mod Counters
mod Tests
