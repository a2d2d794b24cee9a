-- ===== src/Notification.antt =====
-- src/notification: the fan-out of a domain event to the notifications of its recipients, and the
-- counters of what they have not read. `Store` has the tables and counters, `Recipients` who is
-- told, `Cases` the use cases; `Fanout`, `Actor`, `Reading`, `Unread` and `Totals` are
-- proved over them.
pub mod Store
pub mod Recipients
pub mod Cases
pub mod Fanout
pub mod Actor
pub mod Reading
pub mod Unread
pub mod Totals
mod Tests
