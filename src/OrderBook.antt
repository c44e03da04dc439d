-- ===== src/OrderBook.antt =====
-- internal/orderbook: the level 2 order books, their engine, and the bridge that feeds them.
pub mod Model
pub mod Levels
pub mod View
pub mod Sorting
pub mod Text
pub mod Engine
pub mod Refinement
pub mod Bridge
pub mod Feed
pub mod Health
pub mod Sample
mod Tests
