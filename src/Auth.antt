-- ===== src/Auth.antt =====
-- The auth module (apps/api/src/modules/auth): registration, login, the rotation of refresh tokens,
-- logout, and the rate limit of its endpoints.
pub mod Models
pub mod Passwords
pub mod Service
pub mod RateLimit
pub mod Tests
