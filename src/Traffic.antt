-- ===== src/Traffic.antt =====
-- The traffic app, backend/apps/traffic.
pub mod HuMobilePhone
