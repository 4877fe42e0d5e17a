-- ===== src/Tests/Dispatching.antt =====
-- The theorems on the callers of the executor, applied.
use bsnexus.Domain.{
  RequestStatus, WorkStepStatus, deliverable_status_eq, deliverable_type_eq, proof_aspect_status_eq,
  proof_aspect_type_eq, proof_state_eq, request_status_eq, run_attempt_phase_eq,
  run_attempt_status_eq, work_plan_status_eq, work_step_status_eq,
}
use bsnexus.Effects.{err, lookup_error, ok}
use bsnexus.Executor.Attempt.Methods.{Leaves}
use bsnexus.Executor.Dispatch.{Executor, injected}
use bsnexus.Executor.Retry.{Env}
use bsnexus.Executor.World.{World}
use bsnexus.Models.{WorkStep, WorkStepDraft}
use bsnexus.Orchestration.Dispatching.{
  Position, dispatch_steps, plan_and_dispatch_request, re_dispatch_decision, tenant_decision,
}
use bsnexus.Orchestration.Dispatching.Again.{Done, re_dispatch_settles}
use bsnexus.Orchestration.Dispatching.Chains.{Chained, dispatch_steps_settle}
use bsnexus.Orchestration.Dispatching.Once.{handled_once}
use bsnexus.Prelude.{
  Bool, List, String, [], arith, int_eq, nat_eq, none, option_eq, refl, string_eq, true, ℕ, ◌∷◌,
  ◌≡◌,
}
use bsnexus.StateMachines.{can_transition_work_step}
use bsnexus.Store.{
  decision_has_id, deliverable_has_id, get, project_has_id, request_has_id, run_attempt_has_id,
  work_step_has_id,
}
use bsnexus.Tests.Data.{
  decision_on, exit_words, identity, request_in, sample_env, sample_project, step_in, store_in,
}
use bsnexus.Tests.Executor.{sample_executor, sample_request, world_in}

abbrev sample_envs : Position → Env
sample_envs p = sample_executor

abbrev two_steps : List WorkStep
two_steps = step_in 4 WorkStepStatus.pending ∷ step_in 5 WorkStepStatus.pending ∷ []

abbrev two_step_world : World
two_step_world = record (world_in WorkStepStatus.pending) {
  store = store_in RequestStatus.running two_steps;
}

abbrev injected_executor : Executor
injected_executor = injected none none

dispatch_steps_settle_example :
    Leaves
      (dispatch_steps sample_envs 1 injected_executor sample_request 0 2 [] two_steps
        two_step_world)
      (λ _ v. Chained two_steps two_step_world v)
unfolding get can_transition_work_step
dispatch_steps_settle_example =
    dispatch_steps_settle sample_envs 1 injected_executor sample_request two_steps 0 2 []
      two_step_world (λ p. refl) refl (((λ e. cc), tt), (tt, tt))
      (
        (step_in 4 WorkStepStatus.pending, refl, refl),
        ((step_in 5 WorkStepStatus.pending, refl, refl), tt),
      )

abbrev directory : ℕ → String
directory i = "/w/2"

abbrev is_anywhere : String → Bool
is_anywhere path = true

-- the founder has answered, and the step runs again
abbrev answered_world : World
answered_world = record (world_in WorkStepStatus.running) {
  store = record (store_in RequestStatus.running (step_in 4 WorkStepStatus.running ∷ [])) {
    decisions = decision_on 30 ∷ [];
  };
}

re_dispatch_settles_example :
    Done
      (step_in 4 WorkStepStatus.running)
      (step_in 4 WorkStepStatus.running ∷ [])
      (re_dispatch_decision exit_words identity sample_env directory is_anywhere sample_envs 1
        injected_executor 30 answered_world).1
unfolding get tenant_decision
re_dispatch_settles_example =
    re_dispatch_settles exit_words identity sample_env directory is_anywhere sample_envs 1
      injected_executor 30 (decision_on 30) sample_request (step_in 4 WorkStepStatus.running)
      sample_project answered_world (λ p. refl) refl refl refl refl refl refl refl refl refl

abbrev open_world : World
open_world = record (world_in WorkStepStatus.pending) { store = store_in RequestStatus.«open» [] }

abbrev login_draft : WorkStepDraft
login_draft = record {
  name = "Login";
  objective = "Add login";
  expected_outputs = [];
  verifier_policy = none;
}

handled_once_example :
    let v =
      (plan_and_dispatch_request exit_words identity sample_env directory is_anywhere sample_envs 1
        injected_executor
        (ok (login_draft ∷ []))
        7
        open_world).1 in
    ((plan_and_dispatch_request exit_words identity sample_env directory is_anywhere sample_envs 1
        injected_executor
        (ok [])
        7
        v).1
      ≡ v)
    × (plan_and_dispatch_request exit_words identity sample_env directory is_anywhere sample_envs 2
          injected_executor
          (ok (login_draft ∷ []))
          7
          open_world
        ≡ (err lookup_error, open_world))
unfolding get
handled_once_example =
    handled_once exit_words identity sample_env directory is_anywhere sample_envs 1
      injected_executor login_draft [] (ok []) 2 (request_in RequestStatus.«open») sample_project
      open_world refl refl refl (λ e. omega (arith, e))
