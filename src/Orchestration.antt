-- ===== src/Orchestration.antt =====
-- core/orchestration.py: what moves a Request forward once its work has ended.
pub mod Details
pub mod Defs
pub mod Finalize
pub mod Decisions
pub mod Keeps
pub mod Guards
pub mod Advance
pub mod Reengage
pub mod Sweep
pub mod Dispatching
