-- ===== src/Auth.antt =====
-- src/auth: users, accounts and sessions. `State` has the tables, `User` the user entity, `Tokens` and
-- `Users` the repositories, `Session` the use cases on sessions, `Access` those on
-- users.
pub mod State
pub mod User
pub mod Tokens
pub mod Users
pub mod Session
pub mod Access
