-- ===== src/Middleware.antt =====
-- src/middleware/: what stands between the router and the handlers.
pub mod RateLimit
