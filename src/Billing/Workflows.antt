-- ===== src/Billing/Workflows.antt =====
-- backend/apps/billing/workflows.py: the status of a subscription and the cycle of its renewal,
-- on the tables of Billing.Store and on the active flags of the tenants. An instant is read from
-- the service's clock (`now`) or from the wall clock (`wall`), which stamps the rows.
pub mod Status
pub mod Sync
pub mod Cycle
pub mod Latest
pub mod Restriction
pub mod Blocking
pub mod Issued
mod Tests
