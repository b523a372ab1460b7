-- ===== src/Identity.antt =====
-- Stable event identity (src/betmaxxing/ingestion/identity.py).
pub mod Rows
pub mod Alias
pub mod Match
pub mod Mapped
pub mod Resolve
pub mod Review
pub mod Trace
pub mod Registry
pub mod Stable
pub mod Answers
pub mod AliasCount
pub mod AliasLaws
pub mod Queue
pub mod Tables
pub mod Steps
pub mod Invariant
pub mod Ambiguity
pub mod Decision
pub mod OneEach
mod Tests
