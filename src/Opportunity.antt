-- ===== src/Opportunity.antt =====
-- internal/opportunity: the search for trades that profit from differences between venues.
pub mod Model
pub mod Estimates
pub mod PriceArb
pub mod Found
pub mod Sound
pub mod FundingArb
pub mod Legs
pub mod BasisArb
pub mod Engine
pub mod Members
pub mod Scan
pub mod Unmarked
mod Tests
