-- ===== src/Auth.antt =====
-- Accounts and sessions (domain/auth.py, domain/password_reset.py, domain/bootstrap.py,
-- domain/sessions.py, domain/preferences.py, api/auth/dependencies.py).
pub mod Login
pub mod PasswordReset
pub mod Bootstrap
pub mod Sessions
pub mod Tokens
