-- ===== src/Settings.antt =====
-- The settings of a tenant, backend/apps/settings.
pub mod TaxId
