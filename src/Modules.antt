-- ===== src/Modules.antt =====
-- The registry of modules and the order in which they start: internal/platform/module/registry.go.
pub mod Registry
pub mod Order
pub mod Complete
pub mod Possible
mod Tests
