-- ===== src/Runner.antt =====
-- The scheduler's worker (src/betmaxxing/scheduler/runner.py): planning, the lease guard, execution.
pub mod Outcome
pub mod Defs
pub mod Guard
pub mod Tick
pub mod Reach
pub mod Pass
pub mod Executed
pub mod Deadline
pub mod Reset
pub mod Records
pub mod Recorded
pub mod Milestones
pub mod Superseded
mod Tests
