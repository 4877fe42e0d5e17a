-- ===== src/Tests.antt =====
-- Small runs of the modelled code, and the theorems applied to them.
pub mod Data
pub mod Machines
pub mod Attempts
pub mod Contracts
pub mod Verifier
pub mod Steps
pub mod Requests
pub mod Executor
pub mod Judge
pub mod Dispatching
pub mod RateLimits
pub mod Plans
