-- ===== src/Executor/Dispatch/Unconfigured.antt =====
-- core/run_attempt_executor.py: `dispatch_run_attempt` for a tenant with no executor.
use bsnexus.Domain.{
  RunAttemptStatus, WorkStepStatus, deliverable_status_eq, deliverable_type_eq,
  proof_aspect_status_eq, proof_aspect_type_eq, proof_state_eq, request_status_eq,
  run_attempt_phase_eq, run_attempt_status_eq, work_plan_status_eq, work_step_status_eq,
}
use bsnexus.Effects.{err, greenfield_state, illegal_step, pure}
use bsnexus.Executor.Attempt.{add_attempt}
use bsnexus.Executor.Attempt.Branches.{Added, add_leaves}
use bsnexus.Executor.Attempt.Methods.{
  IsAt, Leaves, before, finish_leaves, leaves_then, transition_leaves,
}
use bsnexus.Executor.Dispatch.{
  Executor, dispatch_run_attempt, finish_unconfigured, injected, looked_up,
}
use bsnexus.Executor.Dispatch.Settles.{is_configured}
use bsnexus.Executor.Retry.{Env}
use bsnexus.Executor.World.{DispatchRunAttemptResult, World, on_store}
use bsnexus.Models.{Handoff, Request, RunAttempt, WorkStep}
use bsnexus.Prelude.{
  Option, [], arith, false, int_eq, length, nat_eq, none, option_eq, refl, some, string_eq, strip,
  true, ℕ, ◌++◌, ◌+◌, ◌∷◌, ◌≡◌,
}
use bsnexus.RunAttempts.Defs.{create_run_attempt}
use bsnexus.StateMachines.{can_transition_work_step}
use bsnexus.Store.{
  Store, decision_has_id, deliverable_has_id, get, project_has_id, request_has_id,
  run_attempt_has_id, work_step_has_id,
}
use bsnexus.WorkSteps.Defs.{transition_work_step}
use bsnexus.WorkSteps.Steps.{transition_refused}

module _ (env : Env) (tenant : ℕ) (request : Request) (step : WorkStep) where
  unconfigured_dispatch :
      (who : Executor) (seed : Option Handoff) (w : World)
      → is_configured who ≡ false
      → dispatch_run_attempt env tenant request step who seed w
        ≡ finish_unconfigured env tenant request step w
  unfolding dispatch_run_attempt
  unconfigured_dispatch (injected kind model) seed w h = absurd (cc)
  unconfigured_dispatch (looked_up none resolves) seed w h = refl
  unconfigured_dispatch (looked_up (some (kind, model)) resolves) seed w h = rw h refl

  abbrev pub FailedFrom : World → Option DispatchRunAttemptResult → World → Type 0
  FailedFrom w o v =
      (r : DispatchRunAttemptResult) × (o ≡ some r)
      × (r.attempt.status ≡ RunAttemptStatus.failed)
      × (r.deliverable ≡ none)
      × (r.terminal_reason ≡ "executor_unconfigured")
      × IsAt step.id WorkStepStatus.failed (before w) (w.store).decisions w.trips
          (length (w.store).attempts + 1) v

  abbrev Ended : World → RunAttempt → World → Type 0
  Ended w b v =
      (b.status ≡ RunAttemptStatus.failed)
      × IsAt step.id WorkStepStatus.running (before w) (w.store).decisions w.trips
          (length (w.store).attempts + 1) v

  -- With no executor a step that may be set running from another status ends `failed`, and so does
  -- the attempt that is added for it, with the reason `executor_unconfigured`. The queue, the
  -- Decisions and the other steps are unchanged, and the LLM is not called.
  pub unconfigured_fails :
      (who : Executor) (seed : Option Handoff) (w : World) (row : WorkStep)
      → is_configured who ≡ false
      → get step.id (w.store).steps ≡ some row
      → can_transition_work_step row.status WorkStepStatus.running ≡ true
      → Leaves (dispatch_run_attempt env tenant request step who seed w) (FailedFrom w)
  unfolding finish_unconfigured strip can_transition_work_step
  unconfigured_fails who seed w row unconfigured found_row startable =
      let k = step.id in
      let q = before w in
      let ds = (w.store).decisions in
      let m = length (w.store).attempts in
      let start : IsAt k row.status q ds w.trips m w = record {
        row = (row, found_row, refl);
        others = λ j other. refl;
        posted = refl;
        asked = refl;
        called = omega arith;
        tried = omega arith;
      } in
      let running = WorkStepStatus.running in
      rw (unconfigured_dispatch who seed w unconfigured) (
        leaves_then (Added env tenant request step q ds w.trips m "unconfigured" none row.status w)
          (FailedFrom w) (add_attempt env tenant request step "unconfigured" none w) _
          (add_leaves env tenant request step q ds w.trips m "unconfigured" none row.status w start)
          (λ a w1 p1.
            leaves_then (λ _ v. IsAt k running q ds w.trips (m + 1) v) (FailedFrom w) _ _
              (transition_leaves k row.status q ds w.trips (m + 1) w1 (p1.1) running startable)
              (λ _ w2 p2.
                leaves_then (Ended w) (FailedFrom w) _ _
                  (finish_leaves k running q ds w.trips (m + 1) w2 p2 (w2.store).now
                    RunAttemptStatus.failed "executor_unconfigured" a refl (ground arith))
                  (λ b w3 p3.
                    let r : DispatchRunAttemptResult = record {
                      attempt = b;
                      deliverable = none;
                      terminal_reason = "executor_unconfigured";
                    } in
                    leaves_then (λ _ v. IsAt k WorkStepStatus.failed q ds w.trips (m + 1) v)
                      (FailedFrom w) (on_store (transition_work_step k WorkStepStatus.failed) w3)
                      (λ _. pure (some r))
                      (transition_leaves k running q ds w.trips (m + 1) w3 (p3.1)
                        WorkStepStatus.failed refl)
                      (λ _ w4 p4. (r, refl, p3.0, refl, refl, p4))))))

  -- With no executor a step that is not allowed to be set running, so also one that already runs, makes
  -- `dispatch_run_attempt` raise GreenfieldStateError; the step keeps its status, and an attempt is
  -- left behind that is `running`.
  pub unconfigured_raises :
      (who : Executor) (seed : Option Handoff) (w : World) (row : WorkStep)
      → is_configured who ≡ false
      → get step.id (w.store).steps ≡ some row
      → can_transition_work_step row.status WorkStepStatus.running ≡ false
      → let done = dispatch_run_attempt env tenant request step who seed w in
        let left = create_run_attempt (w.store).next_id (w.store).now step.id "unconfigured" none in
        (done.0 ≡ err (greenfield_state (illegal_step row.status WorkStepStatus.running)))
        × (done.1.store.steps ≡ (w.store).steps)
        × (done.1.store.attempts ≡ (w.store).attempts ++ left ∷ [])
        × (left.status ≡ RunAttemptStatus.running)
  unfolding finish_unconfigured add_attempt create_run_attempt
  unconfigured_raises who seed w row unconfigured found_row refused =
      let refuse =
        transition_refused step.id WorkStepStatus.running (opened w) row found_row refused in
      rw (unconfigured_dispatch who seed w unconfigured, refuse) (refl, refl, refl, refl)
    where
      opened : World → Store
      opened v = (add_attempt env tenant request step "unconfigured" none v).1.store
