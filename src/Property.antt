-- ===== src/Property.antt =====
-- src/property: buildings, units, leases and invite codes. `Entities` has the entities, `Store`
-- the tables and the invite codes, `Cases` the use cases; the rest are their properties.
pub mod Entities
pub mod Store
pub mod Cases
pub mod Invites
pub mod Leases
mod Tests
