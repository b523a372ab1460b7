-- ===== src/Eligibility.antt =====
-- The eligibility gate (src/betmaxxing/engine/eligibility.py) and the publication rule that it asks
-- (src/betmaxxing/models_ml/registry.py).
pub mod Gate
pub mod Reasons
pub mod Publication
mod Tests
