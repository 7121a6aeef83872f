-- ===== src/Server/Auth.antt =====
-- Accounts and sessions: server/app/services/auth_service.py and server/app/core/security.py.
pub mod Settings
pub mod RateLimit
pub mod Password
pub mod Login
pub mod Sessions
pub mod OneTime
pub mod Mfa
pub mod Signup
