-- ===== src/Board.antt =====
-- src/board: posts, comments and likes of a building's board. `Store` has the entities, the tables
-- and the derived like counters in Redis, `Posts` and `Likes` the use cases.
pub mod Store
pub mod Posts
pub mod Likes
pub mod Listing
pub mod Counting
pub mod Effects
pub mod Drift
pub mod LikeCycle
pub mod Authors
pub mod Batch
pub mod Lists
mod Tests
