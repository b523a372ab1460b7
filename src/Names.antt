-- ===== src/Names.antt =====
-- Participant names: `slugify` and `normalize_participant` of src/betmaxxing/domain/ids.py.
pub mod Defs
mod Tests
