-- ===== src/Outbox.antt =====
-- At-most-once notifications (src/betmaxxing/providers/notifications/outbox.py).
pub mod Defs
pub mod Once
pub mod Unsent
mod Tests
