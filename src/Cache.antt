-- ===== src/Cache.antt =====
-- The Redis cache and the rate limiter on top of it: src/cache.
pub mod SlidingWindow
