-- ===== src/Tests/Steps.antt =====
-- The theorems on plans, the proof gate and steps, applied.
use bsnexus.Domain.{
  ProofState, RequestStatus, WorkPlanCreatedBy, WorkPlanStatus, WorkStepStatus,
  deliverable_status_eq, deliverable_type_eq, proof_aspect_status_eq, proof_aspect_type_eq,
  proof_state_eq, request_status_eq, run_attempt_phase_eq, run_attempt_status_eq,
  work_plan_status_eq, work_step_status_eq,
}
use bsnexus.Effects.{ok}
use bsnexus.GitOps.Effect.{IsStamped, open-IsStamped}
use bsnexus.GitOps.PullRequest.{open_request_pr}
use bsnexus.Models.{Deliverable, WorkPlan, WorkStep, WorkStepDraft}
use bsnexus.Prelude.{
  All, List, [], all, count_if, int_eq, length, nat_beq, nat_eq, not, option_eq, refl, some,
  string_eq, true, ◌&&◌, ◌++◌, ◌<◌, ◌==◌, ◌||◌, ◌∷◌, ◌≡◌,
}
use bsnexus.StateMachines.{can_transition_request}
use bsnexus.Store.{
  Store, decision_has_id, deliverable_has_id, get, project_has_id, request_has_id,
  run_attempt_has_id, work_step_has_id,
}
use bsnexus.Tests.Data.{
  bound_project, deliverable_in, draft_named, identity, request_in, sample_env, step_in, store_in,
}
use bsnexus.WorkSteps.Defs.{
  create_work_plan, engaged, is_active_plan_of, is_verified, max_version,
  request_has_verified_deliverable_proof, transition_request,
}
use bsnexus.WorkSteps.Gate.{gate_exact, is_superseded}
use bsnexus.WorkSteps.Plans.{
  IsFresh, created_plan_is_latest, created_steps, latest_plan, one_active_plan,
}
use bsnexus.WorkSteps.Requests.{SameElsewhere, status_of, transition_request_exact}
use bsnexus.WorkSteps.Steps.{IsTrace, step_history, try_steps}

abbrev open_store : Store
open_store = store_in RequestStatus.«open» (step_in 4 WorkStepStatus.pending ∷ [])

abbrev two_drafts : List WorkStepDraft
two_drafts = draft_named "schema" ∷ draft_named "form" ∷ []

abbrev second_plan : WorkPlan
second_plan = record {
  id = 100;
  request_id = 7;
  version = 2;
  steps = two_drafts;
  created_by = WorkPlanCreatedBy.user;
  status = WorkPlanStatus.active;
}

abbrev planned_store : Store
planned_store = (create_work_plan 7 two_drafts WorkPlanCreatedBy.user open_store).1

second_plan_made :
    create_work_plan 7 two_drafts WorkPlanCreatedBy.user open_store
    ≡ (ok second_plan, planned_store)
unfolding create_work_plan max_version
second_plan_made = refl

one_active_plan_example :
    (count_if (is_active_plan_of 7) planned_store.plans ≡ 1)
    × (is_active_plan_of 7 second_plan ≡ true)
one_active_plan_example =
    one_active_plan 7 two_drafts WorkPlanCreatedBy.user open_store planned_store second_plan
      second_plan_made

created_plan_is_latest_example :
    (latest_plan 7 planned_store.plans ≡ some second_plan)
    × All (λ p. (p.request_id == 7) ≡ true → p.version < second_plan.version) open_store.plans
created_plan_is_latest_example =
    created_plan_is_latest 7 two_drafts WorkPlanCreatedBy.user open_store planned_store second_plan
      second_plan_made

created_steps_example :
    (ws : List WorkStep) × (planned_store.steps ≡ open_store.steps ++ ws)
    × IsFresh 101 7 100 two_drafts ws
    × (get 7 planned_store.requests ≡ some (engaged 101 (request_in RequestStatus.«open»)))
unfolding get
created_steps_example =
    created_steps 7 (draft_named "schema") (draft_named "form" ∷ []) WorkPlanCreatedBy.user
      open_store (request_in RequestStatus.«open») refl

-- a failure, and a later success of the same step
abbrev two_deliverables : List Deliverable
two_deliverables =
    deliverable_in 21 ProofState.verified ∷ deliverable_in 20 ProofState.verification_failed ∷ []

gate_exact_example : request_has_verified_deliverable_proof 7 two_deliverables ≡ (
    not (nat_beq (length two_deliverables) 0)
    && all (λ d. is_superseded two_deliverables d || is_verified d) two_deliverables)
gate_exact_example = gate_exact 7 two_deliverables ((refl, tt), (tt, tt))

abbrev running_step : WorkStep
running_step = step_in 4 WorkStepStatus.running

abbrev running_store : Store
running_store = store_in RequestStatus.running (running_step ∷ [])

abbrev some_targets : List WorkStepStatus
some_targets = WorkStepStatus.failed ∷ WorkStepStatus.pending ∷ WorkStepStatus.running ∷ []

step_history_example : IsTrace 4 running_step some_targets (try_steps 4 some_targets running_store)
unfolding get
step_history_example = step_history 4 some_targets running_store running_step refl

transition_request_exact_example :
    let t =
      (transition_request identity sample_env 7 RequestStatus.needs_decision running_store).1 in
    (status_of 7 t.requests ≡ some RequestStatus.needs_decision) × SameElsewhere running_store t
unfolding get can_transition_request
transition_request_exact_example =
    transition_request_exact identity sample_env 7 7 RequestStatus.needs_decision running_store
      (request_in RequestStatus.running) refl

abbrev bound_store : Store
bound_store = record running_store { projects = bound_project ∷ [] }

open-IsStamped_example :
    IsStamped
      (request_in RequestStatus.running)
      bound_store
      (open_request_pr identity sample_env (request_in RequestStatus.running) bound_store).1
open-IsStamped_example =
    open-IsStamped identity sample_env (request_in RequestStatus.running) bound_store
