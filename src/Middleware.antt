-- ===== src/Middleware.antt =====
-- internal/middleware: rate limit, access tokens, roles.
pub mod RateLimit
pub mod Window
pub mod Access
pub mod Guards
