-- ===== src/Trader.antt =====
-- internal/trader: positions, trades and statistics from the fills of wallets.
pub mod Model
pub mod Reconstruct
pub mod Counts
pub mod Exact
pub mod Room
pub mod Balance
pub mod Rollup
pub mod Watcher
pub mod References
pub mod Kept
pub mod Resync
mod Tests
