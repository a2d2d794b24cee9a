-- ===== src/Pipeline.antt =====
-- The way of an event from the table of the outbox to the consumers: the relay of src/outbox, the
-- broker, and the workers of src/audit and src/notification. `Published` and `Order` are about what
-- the relay emits, `Audited`, `Informed` and `Told` about what the workers have then written down.
pub mod Published
pub mod Order
pub mod Audited
pub mod Informed
pub mod Told
mod Tests
