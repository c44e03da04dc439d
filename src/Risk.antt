-- ===== src/Risk.antt =====
-- internal/risk: the pre-trade checks, the kill switch and the decision.
pub mod Calculator
pub mod Engine
pub mod Decision
mod Tests
