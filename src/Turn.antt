-- ===== src/Turn.antt =====
-- src/jev_router/effort.py: the between-turn effort policy and its update ledger.
pub mod Evidence
pub mod Target
pub mod Plan
pub mod Ledger
