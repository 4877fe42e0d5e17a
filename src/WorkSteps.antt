-- ===== src/WorkSteps.antt =====
-- core/work_steps.py: work plans, and the transitions of work steps and requests.
pub mod Defs
pub mod Plans
pub mod Gate
pub mod Requests
pub mod Steps
