-- ===== src/Budget.antt =====
-- The credit budget of paid providers (src/betmaxxing/providers/budget.py).
pub mod Defs
pub mod Sums
pub mod Invariant
pub mod Charge
pub mod Reserve
pub mod Audit
pub mod Once
pub mod Ceiling
pub mod Refund
mod Tests
