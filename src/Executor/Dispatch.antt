-- ===== src/Executor/Dispatch.antt =====
-- core/run_attempt_executor.py: `dispatch_run_attempt`, an attempt and its continuations.
--
-- `configured` is the tenant's row of ExecutorConfig, `resolves` whether `resolve_executor` gives an
-- executor; both are read only where the caller gives none. The sandbox is part of `machine`.
pub mod Settles
pub mod Unconfigured
pub mod Requests
use bsnexus.Domain.{RunAttemptStatus, WorkStepStatus}
use bsnexus.Effects.{Exec, Result, err, ok, pure, ◌>>=◌, ◌>>◌}
use bsnexus.Executor.Attempt.{add_attempt, execute_one_attempt}
use bsnexus.Executor.Defs.{max_budget_continuations}
use bsnexus.Executor.Retry.{Env}
use bsnexus.Executor.World.{
  AttemptOutcome, DispatchRunAttemptResult, World, concludes, finish_attempt, hands_over, on_store,
  put_attempt,
}
use bsnexus.Models.{Handoff, Request, WorkStep}
use bsnexus.Prelude.{Bool, Option, String, false, if◌then◌else◌, none, some, suc, true, zero, ℕ}
use bsnexus.WorkSteps.Defs.{transition_work_step}

-- `executor` of the caller, with the kind that it names
pub data Executor : Type 0 where
  injected : Option String → Option String → Executor
  looked_up : Option (String × Option String) → Bool → Executor

-- `executor_kind` where none is named
abbrev pub kind_or_injected : Option String → String
kind_or_injected none = "injected"
kind_or_injected (some kind) = kind

-- the loop's body after its attempt: a handoff seeds the next attempt, and nothing is returned yet
unfoldable pub after_attempt :
    (Handoff → Exec World (Option DispatchRunAttemptResult))
    → Result AttemptOutcome × World
    → Result (Option DispatchRunAttemptResult) × World
after_attempt next (err e, w) = (err e, w)
after_attempt next (ok (hands_over h), w) = next h w
after_attempt next (ok (concludes r), w) = (ok (some r), w)

module _ (env : Env) (tenant : ℕ) (request : Request) (step : WorkStep) where
  -- the loop over `continuation_index`, with the continuations that are left
  unfoldable pub continue_attempts :
      ℕ → String → Option String → Option Handoff → Exec World (Option DispatchRunAttemptResult)
  unfolding execute_one_attempt after_attempt
  continue_attempts zero kind model seed w =
      after_attempt (λ h. pure none)
        (execute_one_attempt env tenant request step kind model seed false w)
  continue_attempts (suc left) kind model seed w =
      after_attempt (λ h. continue_attempts left kind model (some h))
        (execute_one_attempt env tenant request step kind model seed true w)

  -- `_finish_unconfigured`
  unfoldable pub finish_unconfigured : Exec World (Option DispatchRunAttemptResult)
  unfolding add_attempt put_attempt
  finish_unconfigured = do
    a ← add_attempt env tenant request step "unconfigured" none
    on_store (transition_work_step step.id WorkStepStatus.running)
    (λ w.
        (do
          b ← finish_attempt (w.store).now RunAttemptStatus.failed "executor_unconfigured" a
          on_store (transition_work_step step.id WorkStepStatus.failed)
          pure (
              some (record {
                attempt = b;
                deliverable = none;
                terminal_reason = "executor_unconfigured";
              })))
          w)

  abbrev run_attempts :
      String → Option String → Option Handoff → Exec World (Option DispatchRunAttemptResult)
  run_attempts = continue_attempts max_budget_continuations

  unfoldable pub dispatch_run_attempt :
      Executor → Option Handoff → Exec World (Option DispatchRunAttemptResult)
  unfolding continue_attempts finish_unconfigured
  dispatch_run_attempt (injected kind model) seed = run_attempts (kind_or_injected kind) model seed
  dispatch_run_attempt (looked_up none resolves) seed = finish_unconfigured
  dispatch_run_attempt (looked_up (some (kind, model)) resolves) seed =
      if resolves then run_attempts kind model seed else finish_unconfigured
