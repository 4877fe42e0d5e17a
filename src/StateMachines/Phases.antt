-- ===== src/StateMachines/Phases.antt =====
-- `can_advance_run_attempt_phase` of core/state_machines.py against a numbering of the phases.
use bsnexus.Domain.{RunAttemptPhase}
use bsnexus.Prelude.{arith, true, ℕ, ◌+◌, ◌↔◌, ◌≡◌}
use bsnexus.StateMachines.{can_advance_run_attempt_phase}

-- how far along its life a RunAttempt is
abbrev pub stage : RunAttemptPhase → ℕ
stage RunAttemptPhase.prepare = 0
stage RunAttemptPhase.work = 1
stage RunAttemptPhase.verify = 2
stage RunAttemptPhase.summarize = 3
stage RunAttemptPhase.terminal = 4

-- A phase may be advanced to exactly the phase that is one stage later: none is skipped, repeated
-- or gone back to, and `terminal` leads nowhere.
pub can_advance_iff_next_stage :
    (current target : RunAttemptPhase)
    → (can_advance_run_attempt_phase current target ≡ true) ↔ (stage target ≡ stage current + 1)
unfolding can_advance_run_attempt_phase
can_advance_iff_next_stage current target = ground arith
