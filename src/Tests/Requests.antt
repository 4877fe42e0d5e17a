-- ===== src/Tests/Requests.antt =====
-- The theorems on finalization, re-engagement and the sweep, applied.
use bsnexus.Domain.{
  ProofState, RequestStatus, RunAttemptStatus, WorkStepStatus, deliverable_status_eq,
  deliverable_type_eq, proof_aspect_status_eq, proof_aspect_type_eq, proof_state_eq,
  request_status_eq, run_attempt_phase_eq, run_attempt_status_eq, work_plan_status_eq,
  work_step_status_eq,
}
use bsnexus.Effects.{ok}
use bsnexus.Models.{Deliverable, Request, WorkStep}
use bsnexus.Orchestration.Advance.{advance_after_proof_exact, step_status_of}
use bsnexus.Orchestration.Decisions.{has_open_decision, stuck_steps_get_decisions}
use bsnexus.Orchestration.Defs.{
  advance_request_after_proof, is_stuck, maybe_finalize_request, re_engage_request,
  reap_orphaned_run_attempts, steps_of_plan,
}
use bsnexus.Orchestration.Finalize.{maybe_finalize_exact}
use bsnexus.Orchestration.Reengage.{re_engaged, re_engages_once}
use bsnexus.Orchestration.Sweep.{attempt_status_of, sweep_exact}
use bsnexus.Prelude.{
  List, [], all, count_if, false, filter, int_eq, length, nat_eq, none, not, option_eq, order_by,
  refl, some, string_eq, true, ◌+◌, ◌==◌, ◌∷◌, ◌≡◌,
}
use bsnexus.RunAttempts.Defs.{create_run_attempt}
use bsnexus.Store.{
  Store, decision_has_id, deliverable_has_id, get, project_has_id, request_has_id,
  run_attempt_has_id, work_step_has_id,
}
use bsnexus.Tests.Data.{
  decision_on, deliverable_in, exit_words, identity, request_in, sample_env, sample_plan, step_in,
  store_in,
}
use bsnexus.WorkSteps.Plans.{latest_plan}
use bsnexus.WorkSteps.Requests.{status_of}

-- one step failed, the other is done
abbrev stuck_store : Store
stuck_store =
    store_in RequestStatus.running
      (step_in 4 WorkStepStatus.failed ∷ step_in 5 WorkStepStatus.review_ready ∷ [])

abbrev run_request : Request
run_request = request_in RequestStatus.running

abbrev stuck_steps : List WorkStep
stuck_steps = stuck_store.steps

maybe_finalize_exact_example :
    status_of 7
      (maybe_finalize_request exit_words identity sample_env run_request stuck_store).1.requests
    ≡ some RequestStatus.needs_decision
unfolding get latest_plan order_by
maybe_finalize_exact_example =
    maybe_finalize_exact exit_words identity sample_env 7 run_request sample_plan stuck_store refl
      refl refl

stuck_steps_get_decisions_example :
    let stuck = filter is_stuck (steps_of_plan 3 stuck_steps) in
    let t = (maybe_finalize_request exit_words identity sample_env run_request stuck_store).1 in
    (status_of 7 t.requests ≡ some RequestStatus.needs_decision)
    × (all (λ w. has_open_decision 7 w.id t.decisions) stuck ≡ true)
    × (length t.decisions
        ≡ length stuck_store.decisions
          + count_if (λ w. not (has_open_decision 7 w.id stuck_store.decisions)) stuck)
unfolding get latest_plan order_by
stuck_steps_get_decisions_example =
    stuck_steps_get_decisions exit_words identity sample_env run_request sample_plan stuck_store
      refl refl refl refl refl

abbrev waiting_step : WorkStep
waiting_step = step_in 4 WorkStepStatus.verifying

abbrev proof_store : Store
proof_store = store_in RequestStatus.running (waiting_step ∷ [])

abbrev verified_deliverable : Deliverable
verified_deliverable = deliverable_in 20 ProofState.verified

advance_after_proof_exact_example :
    step_status_of 4
      (advance_request_after_proof exit_words identity sample_env verified_deliverable
        proof_store).1.steps
    ≡ some WorkStepStatus.review_ready
unfolding get
advance_after_proof_exact_example =
    advance_after_proof_exact exit_words identity sample_env verified_deliverable waiting_step
      proof_store 4 refl refl refl

abbrev failed_step : WorkStep
failed_step = step_in 4 WorkStepStatus.failed

abbrev parked_request : Request
parked_request = request_in RequestStatus.needs_decision

abbrev parked_store : Store
parked_store = store_in RequestStatus.needs_decision (failed_step ∷ [])

re_engages_once_example :
    (re_engage_request identity sample_env (some (ok tt)) (decision_on 40) parked_store
      ≡ (ok true, re_engaged parked_request failed_step parked_store))
    × (re_engage_request identity sample_env none
          (decision_on 41)
          (re_engaged parked_request failed_step parked_store)
        ≡ (ok false, re_engaged parked_request failed_step parked_store))
unfolding get
re_engages_once_example =
    re_engages_once identity sample_env (decision_on 40) (decision_on 41) none parked_request
      failed_step parked_store refl refl refl refl refl refl refl

-- an attempt whose process died at work on the step 4
abbrev dead_store : Store
dead_store = record (store_in RequestStatus.running (step_in 4 WorkStepStatus.running ∷ [])) {
  attempts = create_run_attempt 4 0 4 "api" none ∷ [];
}

sweep_exact_example :
    let t = (reap_orphaned_run_attempts exit_words identity sample_env dead_store).1 in
    ((attempt_status_of 4 t.attempts == some RunAttemptStatus.running) ≡ false)
    × (attempt_status_of 4 t.attempts ≡ some RunAttemptStatus.failed)
    × (step_status_of 4 t.steps ≡ some WorkStepStatus.failed)
unfolding get create_run_attempt
sweep_exact_example = sweep_exact exit_words identity sample_env dead_store 4
