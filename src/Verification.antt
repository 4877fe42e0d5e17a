-- ===== src/Verification.antt =====
-- core/verification.py: the multi-aspect verifier.
pub mod Specs
pub mod Runners
pub mod Builds
pub mod Run
pub mod Rollup
pub mod Verdicts
pub mod Judge
pub mod Judged
