-- ===== src/Admin.antt =====
-- internal/admin: login lockout and roles.
pub mod Lockout
pub mod Rbac
pub mod Tests
