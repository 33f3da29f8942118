-- ===== src/Middleware.antt =====
-- backend/app/middleware: the rate limit.
pub mod RateLimit
pub mod Redis
pub mod Dispatch
