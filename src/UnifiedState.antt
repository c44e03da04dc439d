-- ===== src/UnifiedState.antt =====
-- internal/unifiedstate: what the venues say of each instrument, brought together.
pub mod Model
pub mod Aggregate
pub mod Engine
pub mod Best
pub mod Snapshot
pub mod Calls
pub mod Summary
pub mod Stale
mod Tests
