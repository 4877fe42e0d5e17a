-- ===== src/Orchestration/Dispatching/Again.antt =====
-- core/orchestration.py: how `re_dispatch_decision` leaves the step of its Decision, and which calls
-- do nothing.
use mathlib.Core.Option
use bsnexus.Domain.{
  RequestStatus, deliverable_status_eq, deliverable_type_eq, proof_aspect_status_eq,
  proof_aspect_type_eq, proof_state_eq, request_status_eq, run_attempt_phase_eq,
  run_attempt_status_eq, work_plan_status_eq, work_step_status_eq,
}
use bsnexus.Effects.{Result, err, lookup_error, ok, ◌>>◌}
use bsnexus.Executor.Attempt.Branches.{is_startable}
use bsnexus.Executor.Attempt.Methods.{leaves_state}
use bsnexus.Executor.Dispatch.{Executor, dispatch_run_attempt}
use bsnexus.Executor.Dispatch.Settles.{is_configured}
use bsnexus.Executor.Retry.{Env}
use bsnexus.Executor.World.{World}
use bsnexus.GitOps.Branch.{GitEnv}
use bsnexus.Models.{Decision, Handoff, Project, Request, WorkStep, WorkStepDraft}
use bsnexus.Orchestration.Defs.{steps_of_plan}
use bsnexus.Orchestration.Dispatching.{
  Position, again_if_on_step, dispatch_again, dispatch_and_finalize, finalize_now, founder_handoff,
  plan_and_dispatch_request, position_of, provision_workspace, re_dispatch_decision, read_result,
  set_project, tenant_decision, tenant_request,
}
use bsnexus.Orchestration.Dispatching.Chains.{HasStatus, Turned, has_settled, turn_leaves}
use bsnexus.Orchestration.Keeps.{maybe_finalize-Keeps}
use bsnexus.Prelude.{
  Bool, List, Option, Option-cases, String, arith, false, inl, inr, int_eq, nat_eq, none, option_eq,
  refl, some, string_eq, subst, sym, true, ℕ, ℤ, ◌==◌, ◌∙◌, ◌≡◌, ◌≢◌,
}
use bsnexus.Store.{
  decision_has_id, deliverable_has_id, get, project_has_id, request_has_id, run_attempt_has_id,
  work_step_has_id,
}

-- the step has settled, and the rows of others are as before
abbrev pub Done : WorkStep → List WorkStep → World → Type 0
Done step rows v =
    HasStatus has_settled (v.store).steps step
    × ((j : ℕ) → step.id ≢ j → get j (v.store).steps ≡ get j rows)

module _ (exit_text : Option ℤ → String) (lower : String → String) (git : GitEnv)
    (managed : ℕ → String) (is_inside : String → Bool) (env : Position → Env) (tenant : ℕ)
    (who : Executor) where
  finalize_now_steps :
      (key : ℕ) (v : World)
      → (finalize_now exit_text lower git managed is_inside env tenant who key v).1.store.steps
        ≡ (v.store).steps
  unfolding finalize_now
  finalize_now_steps key v = elim (Option-cases (get key (v.store).requests)) [
    | inl e ↦ rw (e, finalize_now) refl
    | inr (r, e) ↦ rw (e, finalize_now) (maybe_finalize-Keeps exit_text lower git r v.store).steps
  ]

  and_finalize_settles :
      (position : Position) (r : Request) (step row : WorkStep) (seed : Option Handoff) (w : World)
      → (env position).publish ≡ ok tt
      → is_configured who ≡ true
      → get step.id (w.store).steps ≡ some row
      → is_startable row.status ≡ true
      → Done step
          (w.store).steps
          (dispatch_and_finalize exit_text lower git managed is_inside env tenant who position r
            step seed w).1
  unfolding dispatch_and_finalize
  and_finalize_settles position r step row seed w published configured found_row startable =
      leaves_state (Turned step w) (Done step (w.store).steps)
        (dispatch_run_attempt (env position) tenant r step who seed w)
        (λ o.
          read_result o >> finalize_now exit_text lower git managed is_inside env tenant who r.id)
        (turn_leaves (env position) tenant r step who seed w published configured
          (row, found_row, startable))
        (λ o v ((x, is), after, others). rw (is, finalize_now_steps r.id v) (after, others))

  re_dispatched :
      (key : ℕ) (d : Decision) (w : World)
      → tenant_decision tenant key w.store ≡ some d
      → re_dispatch_decision exit_text lower git managed is_inside env tenant who key w
        ≡ again_if_on_step exit_text lower git managed is_inside env tenant who d d.request_id
            d.work_step_id w
  unfolding re_dispatch_decision
  re_dispatched key d w e = rw (e, re_dispatch_decision) refl

  on_step :
      (d : Decision) (r : Request) (step : WorkStep) (x y : Option ℕ) (w : World)
      → x ≡ some r.id
      → y ≡ some step.id
      → get r.id (w.store).requests ≡ some r
      → get step.id (w.store).steps ≡ some step
      → (r.status == RequestStatus.running) ≡ true
      → again_if_on_step exit_text lower git managed is_inside env tenant who d x y w
        ≡ dispatch_again exit_text lower git managed is_inside env tenant who d r step w
  on_step d r step x y w e2 e3 e4 e5 run = rw (e2, e3, e4, e5) (rw run refl)

  dispatched_again :
      (d : Decision) (r : Request) (step : WorkStep) (p : Project) (w : World)
      → get r.project_id (w.store).projects ≡ some p
      → dispatch_again exit_text lower git managed is_inside env tenant who d r step w
        ≡ dispatch_and_finalize exit_text lower git managed is_inside env tenant who
            (position_of step (steps_of_plan step.plan_id (w.store).steps))
            r
            step
            (founder_handoff d)
            (set_project exit_text lower git managed is_inside env tenant who
              (provision_workspace managed is_inside p)
              w)
  unfolding dispatch_again
  dispatched_again d r step p w e = rw (e, dispatch_again) refl

  -- A re-dispatch settles its step. For a Decision of the tenant on a step that may run, of a Request that is
  -- `running` in a project that exists, with an executor and a queue that accepts the message, the
  -- step ends in `verifying`, `needs_decision` or `failed`, and the rows of all other steps are as
  -- before. It holds also when the finalization of the Request raises.
  pub re_dispatch_settles :
      (key : ℕ) (d : Decision) (r : Request) (step : WorkStep) (p : Project) (w : World)
      → ((x : Position) → (env x).publish ≡ ok tt)
      → is_configured who ≡ true
      → tenant_decision tenant key w.store ≡ some d
      → d.request_id ≡ some r.id
      → d.work_step_id ≡ some step.id
      → get r.id (w.store).requests ≡ some r
      → get step.id (w.store).steps ≡ some step
      → r.status ≡ RequestStatus.running
      → get r.project_id (w.store).projects ≡ some p
      → is_startable step.status ≡ true
      → Done step
          (w.store).steps
          (re_dispatch_decision exit_text lower git managed is_inside env tenant who key w).1
  re_dispatch_settles key d r step p w published configured e1 e2 e3 e4 e5 run e6 startable =
      let v =
        set_project exit_text lower git managed is_inside env tenant who
          (provision_workspace managed is_inside p) w in
      let position = position_of step (steps_of_plan step.plan_id (w.store).steps) in
      let same =
        re_dispatched key d w e1
        ∙ on_step d r step (d.request_id) (d.work_step_id) w e2 e3 e4 e5 (ground (arith, run))
        ∙ dispatched_again d r step p w e6 in
      subst (λ (x : Result (Unit {0}) × World). Done step (w.store).steps x.1) (sym same)
        (and_finalize_settles position r step step (founder_handoff d) v (published position)
          configured e5 startable)

  -- For a Request of the tenant that is not open nothing changes; for none LookupError is raised.
  pub not_open_is_skipped :
      (decompose : Result (List WorkStepDraft)) (key : ℕ) (w : World)
      → (Option.map (λ r. r.status) (tenant_request tenant key w.store) ≢ some RequestStatus.«open»)
      → plan_and_dispatch_request exit_text lower git managed is_inside env tenant who decompose key
          w
        ≡ (
          (elim (tenant_request tenant key w.store) [ none ↦ err lookup_error | some r ↦ ok tt ]),
          w,
        )
  unfolding plan_and_dispatch_request
  not_open_is_skipped decompose key w n = elim (Option-cases (tenant_request tenant key w.store)) [
    | inl e ↦ rw (e, plan_and_dispatch_request) refl
    | inr (r, e) ↦
        let closed_one : (r.status == RequestStatus.«open») ≡ false = ground (arith, n, e) in
        rw (e, plan_and_dispatch_request) (rw closed_one refl)
  ]
