-- ===== src/Billing/Store.antt =====
-- The tables of backend/apps/billing/repositories.py that the workflows read and write.
pub mod Subscriptions
pub mod Invoices
pub mod Cancellations
pub mod Payments
pub mod Usage
