-- ===== src/FundingArbitrage.antt =====
-- internal/fundingarbitrage: differences of funding rates between pairs of venues.
pub mod Rates
pub mod Service
pub mod Cached
mod Tests
