-- ===== src/Auth.antt =====
-- internal/auth: signing in by the device flow.
pub mod Poll
