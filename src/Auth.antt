-- ===== src/Auth.antt =====
-- Accounts and sessions: app/core/security.py, app/services/auth_service.py and app/core/deps.py.
pub mod Libraries
pub mod Security
pub mod Service
pub mod Deps
pub mod Tokens
pub mod Registration
pub mod Sessions
pub mod Roles
pub mod Guards
pub mod Seed
pub mod Samples
mod Tests
