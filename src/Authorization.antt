-- ===== src/Authorization.antt =====
-- Authorization of requests: internal/platform/authorization/authorization.go.
pub mod Policy
pub mod Rules
mod Tests
