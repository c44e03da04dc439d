-- ===== src/Execution.antt =====
-- internal/execution: the order state machine, the repository and the execution engine.
pub mod Status
pub mod Model
pub mod Store
pub mod Engine
pub mod Lifecycle
pub mod Outcomes
pub mod Paper
pub mod Submit
pub mod Create
mod Tests
