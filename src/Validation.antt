-- ===== src/Validation.antt =====
-- The validation of what users type, backend/shared/validation and backend/apps.
pub mod Password
mod Tests
