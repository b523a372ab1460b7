-- ===== src/Normalize.antt =====
-- The intake of odds snapshots (src/betmaxxing/ingestion/normalize.py).
pub mod Defs
pub mod Intake
pub mod Books
pub mod Latest
pub mod BookKey
pub mod Grouping
mod Tests
