-- ===== src/RateLimit.antt =====
-- backend/internal/middleware/rate_limiter.go: the limits on logins and on requests.
mod Defs
pub mod Lockout
mod Capacity
pub mod Window
unfoldable pub use Defs.*
