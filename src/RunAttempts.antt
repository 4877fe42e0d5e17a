-- ===== src/RunAttempts.antt =====
-- core/run_attempts.py
pub mod Defs
pub mod Events
pub mod Bounds
pub mod Histories
pub mod Endings
pub mod Ended
pub mod Repetition
pub mod Output
