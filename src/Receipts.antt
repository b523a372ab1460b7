-- ===== src/Receipts.antt =====
-- Durable publication of receipts (src/betmaxxing/providers/the_odds_api/receipt_store.py).
pub mod Directory
pub mod Writing
pub mod Written
pub mod Publish
pub mod Outcome
pub mod Atomic
pub mod Intent
mod Tests
