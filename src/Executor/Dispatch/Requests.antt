-- ===== src/Executor/Dispatch/Requests.antt =====
-- `dispatch_run_attempt` of core/run_attempt_executor.py and the table of Requests.
use bsnexus.Domain.{RunAttemptStatus, WorkStepStatus}
use bsnexus.Effects.{Exec, Result, err, ok}
use bsnexus.Executor.Attempt.{add_attempt}
use bsnexus.Executor.Attempt.Rows.{After, Has, execute-After, finish-After, move-After, then-After}
use bsnexus.Executor.Dispatch.{
  Executor, after_attempt, continue_attempts, dispatch_run_attempt, finish_unconfigured, injected,
  kind_or_injected, looked_up,
}
use bsnexus.Executor.Retry.{Env}
use bsnexus.Executor.World.{AttemptOutcome, DispatchRunAttemptResult, World, concludes, hands_over}
use bsnexus.Models.{Handoff, Request, WorkStep}
use bsnexus.Prelude.{List, Option, String, false, none, some, suc, true, zero, ℕ}
use bsnexus.RunAttempts.Defs.{create_run_attempt}

module _ (rows : List Request) (env : Env) (tenant : ℕ) (request : Request) (step : WorkStep) where
  after_attempt-After :
      (next : Handoff → Exec World (Option DispatchRunAttemptResult))
      (done : Result AttemptOutcome × World)
      → After rows done
      → ((x : Handoff) (v : World) → Has rows v → After rows (next x v))
      → After rows (after_attempt next done)
  unfolding after_attempt
  after_attempt-After next (err e, v) h k = record { same = h.same }
  after_attempt-After next (ok (hands_over x), v) h k = k x v h.same
  after_attempt-After next (ok (concludes r), v) h k = record { same = h.same }

  continue_attempts-After :
      (left : ℕ) (kind : String) (model : Option String) (seed : Option Handoff) (w : World)
      → Has rows w
      → After rows (continue_attempts env tenant request step left kind model seed w)
  unfolding continue_attempts
  continue_attempts-After zero kind model seed w h =
      after_attempt-After _ _ (execute-After rows env tenant request step kind model seed false w h)
        (λ x v g. record { same = g })
  continue_attempts-After (suc left) kind model seed w h =
      after_attempt-After _ _ (execute-After rows env tenant request step kind model seed true w h)
        (λ x v g. continue_attempts-After left kind model (some x) v g)

  unconfigured-After :
      (w : World) → Has rows w → After rows (finish_unconfigured env tenant request step w)
  unfolding finish_unconfigured
  unconfigured-After w h =
      let a = create_run_attempt (w.store).next_id (w.store).now step.id "unconfigured" none in
      let w1 = (add_attempt env tenant request step "unconfigured" none w).1 in
      then-After rows _ _ (move-After rows step.id WorkStepStatus.running w1 h) (λ u w2 h2.
        then-After rows _ _
          (finish-After rows (w2.store).now RunAttemptStatus.failed "executor_unconfigured" a w2 h2)
          (λ b w3 h3.
            then-After rows _ _ (move-After rows step.id WorkStepStatus.failed w3 h3)
              (λ u w4 h4. record { same = h4 })))

  pub dispatch-After :
      (who : Executor) (seed : Option Handoff) (w : World)
      → Has rows w
      → After rows (dispatch_run_attempt env tenant request step who seed w)
  unfolding dispatch_run_attempt
  dispatch-After (injected kind model) seed w h =
      continue_attempts-After 3 (kind_or_injected kind) model seed w h
  dispatch-After (looked_up none resolves) seed w h = unconfigured-After w h
  dispatch-After (looked_up (some (kind, model)) true) seed w h =
      continue_attempts-After 3 kind model seed w h
  dispatch-After (looked_up (some (kind, model)) false) seed w h = unconfigured-After w h
