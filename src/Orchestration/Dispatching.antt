-- ===== src/Orchestration/Dispatching.antt =====
-- core/orchestration.py: the callers of the executor, `plan_and_dispatch_request` and
-- `re_dispatch_decision`, with `provision_workspace` and `_build_work_steps`.
--
-- `decompose` is how `decompose_request` ends; `managed` is the project's directory under
-- the workspace root, `is_inside` whether a directory lies under it. The directory is made, and the
-- repository cloned, on the disk. The executor that `_build_work_steps` resolves is `who` already.
pub mod Chains
pub mod Again
pub mod Once
use bsnexus.Domain.{
  RequestStatus, WorkPlanCreatedBy, deliverable_status_eq, deliverable_type_eq,
  proof_aspect_status_eq, proof_aspect_type_eq, proof_state_eq, request_status_eq,
  run_attempt_phase_eq, run_attempt_status_eq, work_plan_status_eq, work_step_status_eq,
}
use bsnexus.Effects.{
  Exec, Result, err, lift, lookup_error, modify, ok, other_error, pure, raise, when, ◌>>=◌, ◌>>◌,
}
use bsnexus.Executor.Dispatch.{Executor, dispatch_run_attempt}
use bsnexus.Executor.Dispatch.Settles.{is_configured}
use bsnexus.Executor.Handoff.{or_else}
use bsnexus.Executor.Retry.{Env}
use bsnexus.Executor.World.{DispatchRunAttemptResult, World, on_store}
use bsnexus.GitOps.Branch.{GitEnv}
use bsnexus.Models.{Decision, Handoff, Project, Request, WorkStep, WorkStepDraft, server_managed}
use bsnexus.Orchestration.Defs.{maybe_finalize_request, steps_of_plan}
use bsnexus.Planning.{work_step_name_max}
use bsnexus.Prelude.{
  Bool, List, Option, String, [], false, first_line, has_text, if◌then◌else◌, int_eq, is_empty,
  join_text, length, nat_beq, nat_eq, none, not, option_eq, or_empty, some, string_eq, strip,
  take_text, true, ℕ, ℤ, ◌&&◌, ◌++◌, ◌+◌, ◌==◌, ◌∷◌,
}
use bsnexus.Store.{
  Store, decision_has_id, deliverable_has_id, get, project_has_id, request_has_id,
  run_attempt_has_id, update, work_step_has_id,
}
use bsnexus.WorkSteps.Defs.{create_work_plan}

-- where a step stands in its plan, which the prompt tells
pub record Position : Type 0 where
  pub step_index : Option ℕ
  pub total_steps : Option ℕ
  pub prior_step_names : List String

abbrev is_server_managed : Project → Bool
is_server_managed p = elim (p.workspace_type) [ server_managed ↦ true | _ ↦ false ]

module _ (managed : ℕ → String) (is_inside : String → Bool) where
  -- `provision_workspace`: a directory that is stale is stamped anew
  unfoldable pub provision_workspace : Project → Project
  provision_workspace p =
      if has_text p.workspace_dir
        && is_server_managed p
        && not (is_inside (or_empty p.workspace_dir))
      then record p { workspace_dir = some (managed p.id) }
      else p

  -- the caller's `if not project.workspace_dir`
  unfoldable pub stamp_workspace : Project → Project
  stamp_workspace p =
      if has_text p.workspace_dir then p else record p { workspace_dir = some (managed p.id) }

-- `_build_work_steps`: the steps, and who made them
unfoldable pub build_work_steps :
    Result (List WorkStepDraft)
    → Executor
    → String
    → Result (List WorkStepDraft × WorkPlanCreatedBy)
build_work_steps decompose who intent =
    if is_configured who
    then elim decompose [ err e ↦ err e | ok drafts ↦ ok (drafts, WorkPlanCreatedBy.llm_assisted) ]
    else ok (
      record {
        name = take_text work_step_name_max (first_line intent);
        objective = intent;
        expected_outputs = [];
        verifier_policy = none;
      }
          ∷ [],
      WorkPlanCreatedBy.system,
    )

-- the callers read `result.terminal_reason`
abbrev pub read_result : Option DispatchRunAttemptResult → Exec World (Unit {0})
read_result none = raise (other_error "AttributeError")
read_result (some r) = pure tt

-- the step's place among the rows of its plan, and the names before it
unfoldable find_position : ℕ → ℕ → List String → List WorkStep → Option ℕ × List String
find_position k i names [] = (none, names)
find_position k i names (w ∷ ws) =
    let rest = find_position k (i + 1) (names ++ w.draft.name ∷ []) ws in
    if w.id == k then (some i, names) else rest

-- `len(plan_steps) or None`
abbrev count_or_none : ℕ → Option ℕ
count_or_none n = if nat_beq n 0 then none else some n

unfoldable pub position_of : WorkStep → List WorkStep → Position
unfolding find_position
position_of step rows =
    let found_at = find_position step.id 0 [] rows in
    record {
      step_index = found_at.0;
      total_steps = count_or_none (length rows);
      prior_step_names = found_at.1;
    }

-- the handoff that a founder's guidance seeds
unfoldable pub founder_handoff : Decision → Option Handoff
founder_handoff d =
    let guidance = strip (or_empty d.guidance) in
    if d.resolution == some "reframe" && not (is_empty guidance)
    then some (record {
      summary = "The founder reviewed the stalled work and gave new direction.";
      files_touched = [];
      verification_state = "(re-engaged after a founder Decision)";
      remaining = guidance;
      blockers = "";
    })
    else none

module _ (env : Position → Env) (tenant : ℕ) (who : Executor) (request : Request) where
  -- the loop over the plan's steps
  unfoldable pub dispatch_steps : ℕ → ℕ → List String → List WorkStep → Exec World (Unit {0})
  dispatch_steps i total names [] = pure tt
  dispatch_steps i total names (step ∷ steps) = do
    r ←
        dispatch_run_attempt
          (env (record { step_index = some i; total_steps = some total; prior_step_names = names }))
          tenant request step who none
    read_result r
    dispatch_steps (i + 1) total (names ++ step.draft.name ∷ []) steps

-- the Request of the tenant with this id
unfoldable pub tenant_request : ℕ → ℕ → Store → Option Request
tenant_request tenant key s = elim (get key s.requests) [
  | none ↦ none
  | some r ↦ if r.tenant_id == tenant then some r else none
]

unfoldable pub tenant_decision : ℕ → ℕ → Store → Option Decision
tenant_decision tenant key s = elim (get key s.decisions) [
  | none ↦ none
  | some d ↦ if d.tenant_id == tenant then some d else none
]

-- `raise LookupError` where there is no row
abbrev pub or_lookup : {A : Type 0} → Option A → Result A
or_lookup none = err lookup_error
or_lookup (some a) = ok a

module _ (exit_text : Option ℤ → String) (lower : String → String) (git : GitEnv)
    (managed : ℕ → String) (is_inside : String → Bool) (env : Position → Env) (tenant : ℕ)
    (who : Executor) where
  -- `_maybe_finalize_request` on the Request as it is now
  unfoldable pub finalize_now : ℕ → Exec World (Unit {0})
  finalize_now key w = elim (get key (w.store).requests) [
    | none ↦ (ok tt, w)
    | some r ↦ on_store (maybe_finalize_request exit_text lower git r) w
  ]

  abbrev pub set_project : Project → World → World
  set_project p w = record w {
    store = record (w.store) { projects = update p.id (λ _. p) (w.store).projects };
  }

  -- `(request.intent or "").strip() or f"Request {request.id}"`
  abbrev pub intent_of : Request → String
  intent_of r = or_else (strip r.intent) (join_text "Request " (git.uuid_text r.id))

  -- from the Request's status test on
  unfoldable pub plan_open_request : Result (List WorkStepDraft) → Request → Exec World (Unit {0})
  unfolding finalize_now provision_workspace stamp_workspace
  plan_open_request decompose r = do
    p ← (λ w. (or_lookup (get r.project_id (w.store).projects), w))
    modify
        (set_project (stamp_workspace managed is_inside (provision_workspace managed is_inside p)))
    built ← lift (build_work_steps decompose who (intent_of r))
    plan ← on_store (create_work_plan r.id built.0 built.1)
    (λ w.
        (do
          dispatch_steps env tenant who r 0 (length (steps_of_plan plan.id (w.store).steps)) []
              (steps_of_plan plan.id (w.store).steps)
          finalize_now r.id)
          w)

  unfoldable pub plan_and_dispatch_request : Result (List WorkStepDraft) → ℕ → Exec World (Unit {0})
  unfolding plan_open_request
  plan_and_dispatch_request decompose key = do
    r ← (λ w. (or_lookup (tenant_request tenant key w.store), w))
    when (r.status == RequestStatus.«open») (plan_open_request decompose r)

  unfoldable pub dispatch_and_finalize :
      Position → Request → WorkStep → Option Handoff → Exec World (Unit {0})
  unfolding finalize_now
  dispatch_and_finalize position r step seed = do
    result ← dispatch_run_attempt (env position) tenant r step who seed
    read_result result
    finalize_now r.id

  -- from the Request's status test on
  unfoldable pub dispatch_again : Decision → Request → WorkStep → Exec World (Unit {0})
  unfolding dispatch_and_finalize provision_workspace
  dispatch_again d r step = do
    p ← (λ w. (or_lookup (get r.project_id (w.store).projects), w))
    modify (set_project (provision_workspace managed is_inside p))
    (λ w.
        dispatch_and_finalize (position_of step (steps_of_plan step.plan_id (w.store).steps)) r step
          (founder_handoff d) w)

  abbrev again_if_running : Decision → Option Request → Option WorkStep → Exec World (Unit {0})
  again_if_running d (some r) (some step) =
      when (r.status == RequestStatus.running) (dispatch_again d r step)
  again_if_running d _ _ = pure tt

  abbrev pub again_if_on_step : Decision → Option ℕ → Option ℕ → Exec World (Unit {0})
  again_if_on_step d (some request) (some step) w =
      again_if_running d (get request (w.store).requests) (get step (w.store).steps) w
  again_if_on_step d _ _ w = pure tt w

  unfoldable pub re_dispatch_decision : ℕ → Exec World (Unit {0})
  unfolding dispatch_again
  re_dispatch_decision key = do
    d ← (λ w. (or_lookup (tenant_decision tenant key w.store), w))
    again_if_on_step d d.request_id d.work_step_id
