-- ===== src/WorkSteps/Defs.antt =====
-- core/work_steps.py: the operations, as methods on the session's store.
use bsnexus.Domain.{
  ProofState, RequestStatus, WorkPlanCreatedBy, WorkPlanStatus, WorkStepStatus,
  deliverable_status_eq, deliverable_type_eq, proof_aspect_status_eq, proof_aspect_type_eq,
  proof_state_eq, request_status_eq, run_attempt_phase_eq, run_attempt_status_eq,
  work_plan_status_eq, work_step_status_eq,
}
use bsnexus.Effects.{
  Exec, Result, err, greenfield_state, illegal_request, illegal_step, ok, plan_without_steps,
  pull_request_op, unproven_request, ◌>>=◌,
}
use bsnexus.GitOps.Branch.{GitEnv}
use bsnexus.GitOps.PullRequest.{PullRequestInfo, open_request_pr}
use bsnexus.Models.{Deliverable, Project, Request, WorkPlan, WorkStep, WorkStepDraft}
use bsnexus.Prelude.{
  Bool, List, Option, String, [], all, false, filter, has_text, if◌then◌else◌, int_eq, length, ltb,
  max, nat_beq, nat_eq, none, not, option_eq, order_by, some, string_eq, ℕ, ◌&&◌, ◌++◌, ◌+◌, ◌==◌,
  ◌||◌, ◌∷◌,
}
use bsnexus.StateMachines.{can_transition_request, can_transition_work_step}
use bsnexus.Store.{
  Store, decision_has_id, deliverable_has_id, found, get, project_has_id, request_has_id,
  run_attempt_has_id, update, work_step_has_id,
}

-- `select(func.max(WorkPlan.version)).where(request_id = …)`; no row gives `or 0`
unfoldable pub max_version : ℕ → List WorkPlan → ℕ
max_version request [] = 0
max_version request (p ∷ ps) =
    if p.request_id == request
    then max p.version (max_version request ps)
    else max_version request ps

abbrev pub is_active_plan_of : ℕ → WorkPlan → Bool
is_active_plan_of request p = p.request_id == request && p.status == WorkPlanStatus.active

-- the loop over `active_plans`
unfoldable pub supersede : ℕ → List WorkPlan → List WorkPlan
supersede request [] = []
supersede request (p ∷ ps) =
    (if is_active_plan_of request p then record p { status = WorkPlanStatus.superseded } else p)
    ∷ supersede request ps

abbrev pub new_step : ℕ → ℕ → ℕ → WorkStepDraft → WorkStep
new_step new_id request plan draft = record {
  id = new_id;
  request_id = request;
  plan_id = plan;
  draft = draft;
  status = WorkStepStatus.pending;
  attempt_count = 0;
}

-- the loop that adds a row for each draft
unfoldable pub make_steps : ℕ → ℕ → ℕ → List WorkStepDraft → List WorkStep
make_steps next request plan [] = []
make_steps next request plan (d ∷ ds) =
    new_step next request plan d ∷ make_steps (next + 1) request plan ds

-- the flip `open → running` and the current step
abbrev pub engaged : ℕ → Request → Request
engaged first_step r = record r {
  status = if r.status == RequestStatus.«open» then RequestStatus.running else r.status;
  current_step_id = some first_step;
}

unfoldable pub create_work_plan : ℕ → List WorkStepDraft → WorkPlanCreatedBy → Exec Store WorkPlan
unfolding make_steps
create_work_plan request [] created_by s = (err (greenfield_state plan_without_steps), s)
create_work_plan request (d ∷ ds) created_by s =
    let drafts = d ∷ ds in
    let plan : WorkPlan = record {
      id = s.next_id;
      request_id = request;
      version = max_version request s.plans + 1;
      steps = drafts;
      created_by = created_by;
      status = WorkPlanStatus.active;
    } in
    (
      ok plan,
      record s {
        plans = supersede request s.plans ++ plan ∷ [];
        steps = s.steps ++ make_steps (s.next_id + 1) request s.next_id drafts;
        requests = update request (engaged (s.next_id + 1)) s.requests;
        next_id = s.next_id + 1 + length drafts;
      },
    )

-- the assignments of `transition_work_step`
unfoldable pub moved_step : WorkStepStatus → WorkStep → WorkStep
moved_step target step = record step {
  status = target;
  attempt_count =
      if target == WorkStepStatus.running then step.attempt_count + 1 else step.attempt_count;
}

unfoldable pub move_step : ℕ → WorkStepStatus → WorkStep → Exec Store (Unit {0})
move_step k target step s =
    if can_transition_work_step step.status target
    then (ok tt, record s { steps = update k (moved_step target) s.steps })
    else (err (greenfield_state (illegal_step step.status target)), s)

unfoldable pub transition_work_step : ℕ → WorkStepStatus → Exec Store (Unit {0})
unfolding moved_step
transition_work_step k target = do step ← (λ s. (found (get k s.steps), s)); move_step k target step

-- `ORDER BY created_at, id`
abbrev pub deliverable_before : Deliverable → Deliverable → Bool
deliverable_before a b =
    ltb a.created_at b.created_at || (a.created_at == b.created_at && ltb a.id b.id)

-- `d[k] = v`; the order of a dict's entries is not used
unfoldable pub erase_step : Option ℕ → List Deliverable → List Deliverable
erase_step k [] = []
erase_step k (d ∷ ds) = let rest = erase_step k ds in if d.work_step_id == k then rest else d ∷ rest

-- the loop that fills `latest_per_step`: the dict's values, whose keys are their `work_step_id`
unfoldable pub latest_per_step : List Deliverable → List Deliverable → List Deliverable
unfolding erase_step
latest_per_step latest [] = latest
latest_per_step latest (d ∷ ds) = latest_per_step (d ∷ erase_step d.work_step_id latest) ds

abbrev pub is_verified : Deliverable → Bool
is_verified d = d.proof_state == ProofState.verified

-- `_request_has_verified_deliverable_proof`
unfoldable pub request_has_verified_deliverable_proof : ℕ → List Deliverable → Bool
request_has_verified_deliverable_proof request rows =
    let deliverables =
      order_by deliverable_before (filter (λ d. d.request_id == some request) rows) in
    not (nat_beq (length deliverables) 0) && all is_verified (latest_per_step [] deliverables)

abbrev pub set_request_status : RequestStatus → Request → Request
set_request_status target r = record r { status = target }

-- `project is not None and project.github_repo_url and project.github_token_encrypted`
abbrev pub is_bound : Option Project → Bool
is_bound none = false
is_bound (some p) = has_text p.github_repo_url && has_text p.github_token_encrypted

-- `except PullRequestOpError`
abbrev pub skip_pr_error : Result PullRequestInfo → Result (Unit {0})
skip_pr_error (ok info) = ok tt
skip_pr_error (err (pull_request_op reason)) = ok tt
skip_pr_error (err e) = err e

module _ (lower : String → String) (env : GitEnv) where
  -- the hook that runs when a Request ships
  unfoldable pub pr_hook : Request → Exec Store (Unit {0})
  pr_hook r s =
      if is_bound (get r.project_id s.projects)
      then (skip_pr_error (open_request_pr lower env r s).0, (open_request_pr lower env r s).1)
      else (ok tt, s)

  unfoldable pub commit_request : ℕ → RequestStatus → Request → Exec Store (Unit {0})
  commit_request k target r s =
      let s' = record s { requests = update k (set_request_status target) s.requests } in
      if target == RequestStatus.shipped
      then pr_hook (set_request_status target r) s'
      else (ok tt, s')

  unfoldable pub move_request : ℕ → RequestStatus → Request → Exec Store (Unit {0})
  move_request k target r s =
      if not (can_transition_request r.status target)
      then (err (greenfield_state (illegal_request r.status target)), s)
      else if target == RequestStatus.shipped
          && not (request_has_verified_deliverable_proof k s.deliverables)
      then (err (greenfield_state unproven_request), s)
      else commit_request k target r s

  unfoldable pub transition_request : ℕ → RequestStatus → Exec Store (Unit {0})
  transition_request k target = do r ← (λ s. (found (get k s.requests), s)); move_request k target r
