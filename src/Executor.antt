-- ===== src/Executor.antt =====
-- core/run_attempt_executor.py: the work of an LLM on one WorkStep.
pub mod Defs
pub mod Handoff
pub mod Work
pub mod Retry
pub mod World
pub mod Attempt
pub mod Dispatch
