-- ===== src/Outbox.antt =====
-- src/outbox: the transactional outbox. `Backoff` has the retry delay, `Store` the table and the
-- relay's polling tick; `Tick`, `Quarantine` and `Draining` are proved over them.
pub mod Backoff
pub mod Store
pub mod Tick
pub mod Quarantine
pub mod Draining
mod Tests
