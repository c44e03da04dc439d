-- ===== src/Exchange.antt =====
-- internal/exchange: the adapters of the venues.
pub mod Binance
mod Tests
