-- ===== src/Admin.antt =====
-- The back office's rules: backend/src/admin.
pub mod Health
pub mod Period
