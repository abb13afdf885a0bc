-- ===== src/Routes.antt =====
-- routes/: the API-key boundary, the session and template handlers and the health checks.
pub mod Auth
pub mod Web
pub mod Prepare
pub mod RateLimits
pub mod Router
pub mod Served
pub mod Create
pub mod Poll
pub mod Templates
pub mod Health
