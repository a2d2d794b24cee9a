-- ===== src/Chat.antt =====
-- src/chat: the rooms of an owner and a tenant, and their messages. `Store` has the tables and the
-- cache of recent messages in Redis, `Cases` the use cases and the worker that stores messages,
-- `Gateway` the handlers of a socket and `Hub` all sockets with the channel between the instances;
-- the rest are proved over them.
pub mod Store
pub mod Cases
pub mod Recent
pub mod Access
pub mod Rooms
pub mod Delivery
pub mod Gateway
pub mod Hub
pub mod Growth
pub mod Privacy
pub mod Audience
mod Tests
