-- ===== src/Auth.antt =====
-- Tokens, refresh sessions and the use cases on them, backend/core/modules/auth.
pub mod Tokens
pub mod Sessions
pub mod Refresh
pub mod Logout
pub mod Closed
pub mod Life
pub mod TwoFactor
pub mod Login
pub mod Allowlist
mod Tests
