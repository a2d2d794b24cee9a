-- ===== src/Redis.antt =====
-- src/redis/redis.service.ts: a Lua script is run by its hash, and loaded where the server does not
-- know it. `Scripts` models `runScript`, `Atomic` has its property.
pub mod Scripts
pub mod Atomic
mod Tests
