-- ===== src/Auth/TwoFactor.antt =====
-- The second factor of a login: attempts, e-mailed codes, pending logins, authenticators, and the
-- service on them, backend/core/modules/auth.
pub mod Attempts
pub mod Counters
pub mod Codes
pub mod Pending
pub mod Authenticators
pub mod Totp
pub mod Service
pub mod Limits
pub mod SingleUse
mod Tests
