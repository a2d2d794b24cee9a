-- ===== src/Http.antt =====
-- The controllers of src as HTTP sees them: `Bearer` has the tokens and the guards, `Server` the way
-- of a request through the rate limit, the guards, the validation and the exception filter,
-- `Queries` the use cases for a user whose id the token may lack, and `AuthApi`, `PropertyApi`,
-- `BoardApi`, `NotificationApi` and `ChatApi` the routes; the rest are proved over them.
pub mod Bearer
pub mod Queries
pub mod Server
pub mod AuthApi
pub mod PropertyApi
pub mod BoardApi
pub mod NotificationApi
pub mod ChatApi
pub mod Conversations
pub mod Inbox
pub mod Guarding
pub mod Reachable
pub mod SignedIn
pub mod Onboarding
pub mod Owners
pub mod Outsiders
mod Tests
mod RouteTests
mod InboxTests
