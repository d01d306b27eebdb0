-- ===== src/Events.antt =====
-- The event outbox and its worker, backend/core/kernel/events.
pub mod Outbox
pub mod Policy
pub mod Worker
mod Tests
