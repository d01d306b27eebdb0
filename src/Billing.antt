-- ===== src/Billing.antt =====
-- The billing application, backend/apps/billing.
pub mod Calculations
pub mod Domain
pub mod Catalog
pub mod Proration
pub mod Store
pub mod Workflows
mod Tests
