-- ===== src/Firewall.antt =====
-- The firewall page's guard against locking oneself out: internal/modules/firewall/lockout.go.
pub mod Lockout
pub mod Guard
mod Tests
