-- ===== src/Reconciliation.antt =====
-- internal/reconciliation: what the program believes, compared with what the exchange says.
pub mod Model
pub mod Comparator
pub mod Engine
pub mod Mirror
pub mod Extra
pub mod Summary
pub mod Runs
mod Tests
