-- ===== src/Client.antt =====
-- The budget-aware HTTP client (src/betmaxxing/providers/the_odds_api/client.py).
pub mod Defs
pub mod Attempts
pub mod Spend
mod Tests
