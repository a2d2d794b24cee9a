-- ===== src/Audit.antt =====
-- src/audit: the worker that writes every event down. `Log` has the table and the handlers,
-- `Deliveries` what comes of the deliveries.
pub mod Log
pub mod Deliveries
mod Tests
