-- ===== src/Common.antt =====
-- Shared infrastructure: src/common.
pub mod CircuitBreaker
pub mod RetryPolicy
