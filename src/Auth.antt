-- ===== src/Auth.antt =====
-- Accounts and sessions (backend/app/application/auth_service.py, backend/app/core/security.py, the
-- tables `users` and `refresh_tokens`). Times are microseconds, ids and texts are opaque values.
pub mod Tables
pub mod Service
pub mod Accounts
pub mod Sessions
pub mod Steps
pub mod Rotation
pub mod Replay
mod Examples
