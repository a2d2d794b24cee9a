-- ===== src/RateLimit.antt =====
-- src/common/rate-limit: the guard that every request passes, over a fixed-window counter in Redis.
pub mod Window
mod Tests
