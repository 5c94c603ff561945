-- ===== src/Auth.antt =====
-- src/auth: who may call the API.
pub mod RateLimit
pub mod Guard
