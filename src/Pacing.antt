-- ===== src/Pacing.antt =====
-- How the program slows itself and its callers down: the adaptive pacer of internal/hyperliquid and
-- the rate limiter of internal/httpserver.
pub mod Pacer
pub mod PacerBounds
pub mod RateLimit
pub mod Budget
pub mod Windows
mod Tests
