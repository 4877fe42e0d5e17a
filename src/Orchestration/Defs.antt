-- ===== src/Orchestration/Defs.antt =====
-- core/orchestration.py: founder Decisions, and the operations that finalize, re-engage and reap.
--
-- `exit_text` is `str` of an exit code. Events and log lines are left out: publishing an event is
-- soft. `re_engage_request` does depend on its publish, which is an argument there.
use mathlib.Core.Option
use bsnexus.Domain.{
  ProofState, RequestStatus, RunAttemptStatus, WorkStepStatus, deliverable_status_eq,
  deliverable_type_eq, proof_aspect_status_eq, proof_aspect_type_eq, proof_state_eq,
  request_status_eq, run_attempt_phase_eq, run_attempt_status_eq, work_plan_status_eq,
  work_step_status_eq,
}
use bsnexus.Effects.{Exec, Result, err, is_ok, ok, pure, raise, ◌>>◌}
use bsnexus.GitOps.Branch.{GitEnv}
use bsnexus.Models.{Decision, Deliverable, Request, RunAttempt, WorkStep}
use bsnexus.Orchestration.Details.{
  decision_options, decision_question, work_step_failure_detail, work_step_status_text,
}
use bsnexus.Prelude.{
  Bool, List, Option, String, [], all, any, contains, false, filter, if◌then◌else◌, int_eq,
  join_text, length, nat_beq, nat_eq, none, not, option_eq, some, string_eq, true, ℕ, ℤ, ◌&&◌, ◌++◌,
  ◌+◌, ◌==◌, ◌||◌, ◌∷◌,
}
use bsnexus.RunAttempts.Defs.{finish_run_attempt}
use bsnexus.Store.{
  Store, decision_has_id, deliverable_has_id, get, project_has_id, request_has_id,
  run_attempt_has_id, update, work_step_has_id,
}
use bsnexus.WorkSteps.Defs.{transition_request, transition_work_step}
use bsnexus.WorkSteps.Plans.{latest_plan}

-- the Decision that `create_blocking_decision` adds
abbrev pub blocking_decision : ℕ → Request → Option WorkStep → String → Option String → Decision
blocking_decision new_id request work_step reason detail = record {
  id = new_id;
  tenant_id = request.tenant_id;
  project_id = request.project_id;
  request_id = some request.id;
  work_step_id = Option.map (λ w. w.id) work_step;
  question = decision_question work_step reason detail;
  options = decision_options;
  blocking = true;
  resolved_at = none;
  resolution = none;
  guidance = none;
}

unfoldable pub create_blocking_decision :
    Request → Option WorkStep → String → Option String → Exec Store Decision
create_blocking_decision request work_step reason detail s =
    let decision = blocking_decision s.next_id request work_step reason detail in
    (ok decision, record s { decisions = s.decisions ++ decision ∷ []; next_id = s.next_id + 1 })

-- the set `terminal`
abbrev pub is_terminal_step : WorkStep → Bool
is_terminal_step w =
    w.status == WorkStepStatus.review_ready
    || w.status == WorkStepStatus.failed
    || w.status == WorkStepStatus.skipped
    || w.status == WorkStepStatus.needs_decision

abbrev pub is_stuck_status : WorkStepStatus → Bool
is_stuck_status st = st == WorkStepStatus.failed || st == WorkStepStatus.needs_decision

abbrev pub is_stuck : WorkStep → Bool
is_stuck w = is_stuck_status w.status

abbrev pub is_ready : WorkStep → Bool
is_ready w = w.status == WorkStepStatus.review_ready

-- `decision` is an open one of the Request
abbrev pub is_open_for : ℕ → Decision → Bool
is_open_for k d = d.request_id == some k && d.resolved_at == none

-- `open_decision_step_ids`
unfoldable pub open_decision_step_ids : ℕ → List Decision → List (Option ℕ)
open_decision_step_ids k [] = []
open_decision_step_ids k (d ∷ ds) =
    let rest = open_decision_step_ids k ds in
    if is_open_for k d then d.work_step_id ∷ rest else rest

abbrev pub steps_of_plan : ℕ → List WorkStep → List WorkStep
steps_of_plan plan steps = filter (λ w. w.plan_id == plan) steps

-- the step's transition in `advance_request_after_proof`
unfoldable pub settle_step : ProofState → WorkStep → Exec Store (Unit {0})
settle_step proof w s =
    if not (w.status == WorkStepStatus.verifying)
    then (ok tt, s)
    else if proof == ProofState.verified
    then transition_work_step w.id WorkStepStatus.review_ready s
    else if proof == ProofState.verification_failed || proof == ProofState.human_review_required
    then transition_work_step w.id WorkStepStatus.failed s
    else (ok tt, s)

-- the step's transition in `re_engage_request`
unfoldable pub re_engage_step : Option ℕ → Exec Store (Unit {0})
re_engage_step none s = (ok tt, s)
re_engage_step (some key) s = elim (get key s.steps) [
  | none ↦ (ok tt, s)
  | some w ↦ if is_stuck w then transition_work_step key WorkStepStatus.running s else (ok tt, s)
]

abbrev pub is_at_work : WorkStepStatus → Bool
is_at_work st = st == WorkStepStatus.running || st == WorkStepStatus.verifying

-- the step's transition in `reap_orphaned_run_attempts`
unfoldable pub fail_step : WorkStep → Exec Store (Unit {0})
fail_step w s =
    if is_at_work w.status then transition_work_step w.id WorkStepStatus.failed s else (ok tt, s)

module _ (exit_text : Option ℤ → String) where
  -- the loop over `stuck_steps`; the ids of the steps with an open Decision were read before it
  unfoldable pub raise_decisions : Request → List (Option ℕ) → List WorkStep → Store → Store
  raise_decisions request open_ids [] s = s
  raise_decisions request open_ids (w ∷ stuck) s = raise_decisions request open_ids stuck (
      if contains (some w.id) open_ids
      then s
      else (create_blocking_decision request (some w)
          (join_text "work_step_" (work_step_status_text w.status))
          (work_step_failure_detail exit_text w s) s).1)

  module _ (lower : String → String) (env : GitEnv) where
    -- `_maybe_finalize_request` from the steps of the active plan on
    unfoldable pub finalize_steps : Request → List WorkStep → Exec Store (Unit {0})
    finalize_steps request steps s =
        if any (λ w. not (is_terminal_step w)) steps
        then (ok tt, s)
        else if any is_stuck steps
        then transition_request lower env request.id RequestStatus.needs_decision (
            raise_decisions request (open_decision_step_ids request.id s.decisions)
              (filter is_stuck steps) s)
        else if all is_ready steps
        then (transition_request lower env request.id RequestStatus.review_ready
              >> transition_request lower env request.id RequestStatus.shipped)
            s
        else (ok tt, s)

    unfoldable pub maybe_finalize_request : Request → Exec Store (Unit {0})
    maybe_finalize_request request s =
        if not (request.status == RequestStatus.running)
        then (ok tt, s)
        else elim (latest_plan request.id s.plans) [
          | none ↦ (ok tt, s)
          | some plan ↦
              let steps = steps_of_plan plan.id s.steps in
              if nat_beq (length steps) 0 then (ok tt, s) else finalize_steps request steps s
        ]

    -- the Request of a step, and its finalization
    unfoldable pub finalize_for_step : WorkStep → Exec Store (Unit {0})
    finalize_for_step w s = elim (get w.request_id s.requests) [
      | none ↦ (ok tt, s)
      | some request ↦ maybe_finalize_request request s
    ]

    unfoldable pub advance_request_after_proof : Deliverable → Exec Store (Unit {0})
    advance_request_after_proof d s = elim (d.work_step_id) [
      | none ↦ (ok tt, s)
      | some key ↦ elim (get key s.steps) [
        | none ↦ (ok tt, s)
        | some w ↦ (settle_step d.proof_state w >> finalize_for_step w) s
      ]
    ]

    -- the body of the loop of `reap_orphaned_run_attempts`
    unfoldable pub reap_attempt : RunAttempt → Exec Store (Unit {0})
    reap_attempt attempt s =
        elim (finish_run_attempt s.now RunAttemptStatus.failed "process_lost" attempt) [
          | err e ↦ (err e, s)
          | ok done ↦
              let s' = record s { attempts = update attempt.id (λ _. done) s.attempts } in
              elim (get attempt.work_step_id s'.steps) [
                | none ↦ (ok tt, s')
                | some w ↦ (fail_step w >> finalize_for_step w) s'
              ]
        ]

    -- an exception ends one attempt's turn, not the sweep
    unfoldable pub reap_all : List RunAttempt → Store → ℕ × Store
    reap_all [] s = (0, s)
    reap_all (a ∷ orphaned) s =
        let (reaped, t) = reap_all orphaned (reap_attempt a s).1 in
        (if is_ok (reap_attempt a s).0 then reaped + 1 else reaped, t)

    unfoldable pub reap_orphaned_run_attempts : Store → ℕ × Store
    reap_orphaned_run_attempts s =
        reap_all (filter (λ a. a.status == RunAttemptStatus.running) s.attempts) s

abbrev pub announced : Option (Result (Unit {0})) → Exec Store Bool
announced none = pure false
announced (some (ok u)) = pure true
announced (some (err e)) = raise e

module _ (lower : String → String) (env : GitEnv) where
  -- `publish` is how the stream's publish ends, `none` where there is no stream manager
  unfoldable pub re_engage_request : Option (Result (Unit {0})) → Decision → Exec Store Bool
  re_engage_request publish d s = elim (d.request_id) [
    | none ↦ (ok false, s)
    | some key ↦ elim (get key s.requests) [
      | none ↦ (ok false, s)
      | some request ↦
          if not (request.status == RequestStatus.needs_decision)
          then (ok false, s)
          else (transition_request lower env key RequestStatus.running
                >> re_engage_step d.work_step_id
                >> announced publish)
              s
    ]
  ]
