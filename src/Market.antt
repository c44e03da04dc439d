-- ===== src/Market.antt =====
-- internal/market: subscriptions and connections of market data.
pub mod Subscriptions
pub mod Entries
pub mod Follows
pub mod Indexed
pub mod Connections
pub mod Reconnects
mod Tests
