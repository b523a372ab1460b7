-- ===== src/Montante.antt =====
-- The montante challenge (src/betmaxxing/challenge/montante.py).
pub mod Money
pub mod Rounding
pub mod Defs
pub mod Moves
pub mod Pick
pub mod Chain
pub mod Safety
pub mod Trace
pub mod Final
mod Tests
