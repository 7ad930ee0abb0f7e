-- ===== src/Server.antt =====
-- The HTTP server: its handlers (src/main.rs), what they record (src/metrics.rs) and the limits that
-- they check (src/rate_limiter.rs).
pub mod Metrics
pub mod RateLimiter
pub mod Handlers
pub mod Routes
pub mod Start
