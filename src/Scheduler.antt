-- ===== src/Scheduler.antt =====
-- The scheduler: the durable ledger of occurrences (src/betmaxxing/scheduler/ledger.py).
pub mod Row
pub mod Enqueue
pub mod Occurrence
pub mod Claim
pub mod Complete
pub mod States
pub mod Invariant
pub mod Trace
pub mod Moves
pub mod Final
pub mod Materialise
pub mod Replan
pub mod Planning
pub mod OwnIds
pub mod Planned
pub mod Rounds
pub mod Loop
pub mod Ownership
pub mod Fencing
pub mod Retry
pub mod Progress
mod Tests
mod PlanTests
