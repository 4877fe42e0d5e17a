-- ===== src/Orchestration/Dispatching/Once.antt =====
-- core/orchestration.py: `plan_and_dispatch_request` on a message that is delivered again.
use mathlib.Core.Option
use bsnexus.Domain.{
  RequestStatus, WorkPlanCreatedBy, deliverable_status_eq, deliverable_type_eq,
  proof_aspect_status_eq, proof_aspect_type_eq, proof_state_eq, request_status_eq,
  run_attempt_phase_eq, run_attempt_status_eq, work_plan_status_eq, work_step_status_eq,
}
use bsnexus.Effects.{Exec, Result, continue, err, lookup_error, ok, ◌>>◌}
use bsnexus.Executor.Attempt.Rows.{After, Has, then-After}
use bsnexus.Executor.Dispatch.{Executor}
use bsnexus.Executor.Dispatch.Requests.{dispatch-After}
use bsnexus.Executor.Dispatch.Settles.{is_configured}
use bsnexus.Executor.Retry.{Env}
use bsnexus.Executor.World.{DispatchRunAttemptResult, World}
use bsnexus.GitOps.Branch.{GitEnv}
use bsnexus.Models.{Project, Request, WorkStep, WorkStepDraft}
use bsnexus.Orchestration.Defs.{steps_of_plan}
use bsnexus.Orchestration.Dispatching.{
  Position, build_work_steps, dispatch_steps, finalize_now, intent_of, plan_and_dispatch_request,
  plan_open_request, provision_workspace, read_result, set_project, stamp_workspace, tenant_request,
}
use bsnexus.Orchestration.Dispatching.Again.{not_open_is_skipped}
use bsnexus.Orchestration.Guards.{NotOpen, maybe_finalize-Guards}
use bsnexus.Prelude.{
  Bool, Bool-cases, List, Option, Option-cases, String, [], ap, arith, inl, inr, int_eq, length,
  nat_eq, none, option_eq, refl, some, string_eq, sym, ℕ, ℤ, ◌++◌, ◌+◌, ◌==◌, ◌∙◌, ◌∷◌, ◌≡◌, ◌≢◌,
}
use bsnexus.Store.{
  Store, decision_has_id, deliverable_has_id, get, project_has_id, request_has_id,
  run_attempt_has_id, work_step_has_id,
}
use bsnexus.WorkSteps.Defs.{create_work_plan, engaged}
use bsnexus.WorkSteps.Plans.{created_steps}

read-After :
    (rows : List Request) (o : Option DispatchRunAttemptResult) (w : World)
    → Has rows w
    → After rows (read_result o w)
read-After rows none w h = record { same = h }
read-After rows (some r) w h = record { same = h }

module _ (env : Position → Env) (tenant : ℕ) (who : Executor) (request : Request)
    (rows : List Request) where
  steps-After :
      (steps : List WorkStep) (i total : ℕ) (names : List String) (w : World)
      → Has rows w
      → After rows (dispatch_steps env tenant who request i total names steps w)
  unfolding dispatch_steps
  steps-After [] i total names w h = record { same = h }
  steps-After (s ∷ steps) i total names w h =
      then-After rows _ _
        (dispatch-After rows
          (env (record { step_index = some i; total_steps = some total; prior_step_names = names }))
          tenant request s who none w h)
        (λ o v g.
          then-After rows (read_result o v) _ (read-After rows o v g)
            (λ u x k. steps-After steps (i + 1) total (names ++ s.draft.name ∷ []) x k))

-- what holds of the store after a method and what follows it
then_world :
    {A B : Type 0} (P : World → Type 0) (m : Result A × World) (f : A → Exec World B)
    → P m.1
    → ((a : A) (v : World) → P v → P (f a v).1)
    → P (continue m.0 f m.1).1
then_world P (ok a, v) f h k = k a v h
then_world P (err e, v) f h k = h

engaged_not_open : (n : ℕ) (r : Request) → some (engaged n r).status ≢ some RequestStatus.«open»
engaged_not_open n r = ground arith

module _ (exit_text : Option ℤ → String) (lower : String → String) (git : GitEnv)
    (managed : ℕ → String) (is_inside : String → Bool) (env : Position → Env) (tenant : ℕ)
    (who : Executor) where
  finalize_now-NotOpen :
      (key k : ℕ) (w : World)
      → NotOpen key w.store
      → NotOpen key (finalize_now exit_text lower git managed is_inside env tenant who k w).1.store
  unfolding finalize_now
  finalize_now-NotOpen key k w h = elim (Option-cases (get k (w.store).requests)) [
    | inl e ↦ rw (e, finalize_now) h
    | inr (r, e) ↦ rw (e, finalize_now) (maybe_finalize-Guards exit_text lower git key r w.store h)
  ]

  -- the loop over the steps and the finalization
  dispatched-NotOpen :
      (key k : ℕ) (r : Request) (steps : List WorkStep) (total : ℕ) (w : World)
      → NotOpen key w.store
      → NotOpen key
          ((dispatch_steps env tenant who r 0 total [] steps
              >> finalize_now exit_text lower git managed is_inside env tenant who k)
            w).1.store
  dispatched-NotOpen key k r steps total w h =
      then_world (λ v. NotOpen key v.store) (dispatch_steps env tenant who r 0 total [] steps w) _
        (rw ((steps-After env tenant who r (w.store).requests steps 0 total [] w refl).same) h)
        (λ u v g. finalize_now-NotOpen key k v g)

  -- `_build_work_steps` gives a draft where the decomposer does
  build_some :
      (d : WorkStepDraft) (ds : List WorkStepDraft) (intent : String)
      → (x : WorkStepDraft) × (xs : List WorkStepDraft) × (by : WorkPlanCreatedBy)
        × (build_work_steps (ok (d ∷ ds)) who intent ≡ ok (x ∷ xs, by))
  unfolding build_work_steps
  build_some d ds intent = elim (Bool-cases (is_configured who)) [
    | inl e ↦ (d, ds, WorkPlanCreatedBy.llm_assisted, rw (e, build_work_steps) refl)
    | inr e ↦ rw (e, build_work_steps) (_, [], WorkPlanCreatedBy.system, refl)
  ]

  planned-NotOpen :
      (d : WorkStepDraft) (ds : List WorkStepDraft) (r : Request) (p : Project) (w : World)
      → get r.id (w.store).requests ≡ some r
      → get r.project_id (w.store).projects ≡ some p
      → NotOpen r.id
          (plan_open_request exit_text lower git managed is_inside env tenant who
            (ok (d ∷ ds))
            r
            w).1.store
  unfolding plan_open_request create_work_plan
  planned-NotOpen d ds r p w e found_p =
      let intent = intent_of exit_text lower git managed is_inside env tenant who r in
      let (x, xs, by, built) = build_some d ds intent in
      let stamped = stamp_workspace managed is_inside (provision_workspace managed is_inside p) in
      let w1 = set_project exit_text lower git managed is_inside env tenant who stamped w in
      let t = (create_work_plan r.id (x ∷ xs) by w1.store).1 in
      let w2 : World = record w1 { store = t } in
      let steps = steps_of_plan (w.store).next_id t.steps in
      let same = (created_steps r.id x xs by w1.store r e).3 in
      rw (found_p, plan_open_request)
        (rw built (
          dispatched-NotOpen r.id r.id r steps (length steps) w2 (λ q.
            engaged_not_open ((w.store).next_id + 1) r
              (sym (ap (Option.map (λ (a : Request). a.status)) same) ∙ q))))

  tenant_request-NotOpen :
      (key : ℕ) (s : Store)
      → NotOpen key s
      → Option.map (λ r. r.status) (tenant_request tenant key s) ≢ some RequestStatus.«open»
  unfolding tenant_request
  tenant_request-NotOpen key s h = elim (Option-cases (get key s.requests)) [
    | inl e ↦ rw (e, tenant_request) (λ q. cc)
    | inr (r, e) ↦ elim (Bool-cases (r.tenant_id == tenant)) [
      | inl t ↦ rw (e, tenant_request) (rw t (rw e at h))
      | inr t ↦ rw (e, tenant_request) (rw t (λ q. cc))
    ]
  ]

  own_request :
      (r : Request) (s : Store)
      → get r.id s.requests ≡ some r
      → r.tenant_id ≡ tenant
      → tenant_request tenant r.id s ≡ some r
  unfolding tenant_request
  own_request r s e mine = rw (e, tenant_request) (ground (arith, mine))

  foreign_request :
      (r : Request) (s : Store)
      → get r.id s.requests ≡ some r
      → r.tenant_id ≢ tenant
      → tenant_request tenant r.id s ≡ none
  unfolding tenant_request
  foreign_request r s e foreign = rw (e, tenant_request) (ground (arith, foreign))

  foreign_raises :
      (decompose : Result (List WorkStepDraft)) (r : Request) (w : World)
      → get r.id (w.store).requests ≡ some r
      → r.tenant_id ≢ tenant
      → plan_and_dispatch_request exit_text lower git managed is_inside env tenant who decompose
          r.id w
        ≡ (err lookup_error, w)
  unfolding plan_and_dispatch_request
  foreign_raises decompose r w e foreign =
      rw (foreign_request r w.store e foreign, plan_and_dispatch_request) refl

  -- the first delivery
  handled-NotOpen :
      (d : WorkStepDraft) (ds : List WorkStepDraft) (r : Request) (p : Project) (w : World)
      → get r.id (w.store).requests ≡ some r
      → get r.project_id (w.store).projects ≡ some p
      → r.tenant_id ≡ tenant
      → NotOpen r.id
          (plan_and_dispatch_request exit_text lower git managed is_inside env tenant who
            (ok (d ∷ ds))
            r.id
            w).1.store
  unfolding plan_and_dispatch_request
  handled-NotOpen d ds r p w e found_p mine = elim (Bool-cases (r.status == RequestStatus.«open»)) [
    | inl o ↦
        rw (own_request r w.store e mine, plan_and_dispatch_request)
          (rw o (planned-NotOpen d ds r p w e found_p))
    | inr o ↦
        rw (own_request r w.store e mine, plan_and_dispatch_request)
          (rw o (rw e (ground (arith, o))))
  ]

module _ (exit_text : Option ℤ → String) (lower : String → String) (git : GitEnv)
    (managed : ℕ → String) (is_inside : String → Bool) (env : Position → Env) (tenant : ℕ)
    (who : Executor) where
  -- A request message is handled once, by its tenant. For a Request of the tenant in a project that
  -- exists, and a decomposer that gives a plan: however the first delivery ends, a second one
  -- changes nothing, whatever the decomposer does then. A delivery to another tenant raises
  -- LookupError and changes nothing.
  pub handled_once :
      (d : WorkStepDraft) (ds : List WorkStepDraft) (second : Result (List WorkStepDraft))
      (other : ℕ) (r : Request) (p : Project) (w : World)
      → get r.id (w.store).requests ≡ some r
      → get r.project_id (w.store).projects ≡ some p
      → r.tenant_id ≡ tenant
      → other ≢ tenant
      → let v =
          (plan_and_dispatch_request exit_text lower git managed is_inside env tenant who
            (ok (d ∷ ds))
            r.id
            w).1 in
        ((plan_and_dispatch_request exit_text lower git managed is_inside env tenant who second r.id
            v).1
          ≡ v)
        × (plan_and_dispatch_request exit_text lower git managed is_inside env other who
              (ok (d ∷ ds))
              r.id
              w
            ≡ (err lookup_error, w))
  handled_once d ds second other r p w e found_p mine away =
      let v =
        (plan_and_dispatch_request exit_text lower git managed is_inside env tenant who
          (ok (d ∷ ds)) r.id w).1 in
      let closed_one =
        handled-NotOpen exit_text lower git managed is_inside env tenant who d ds r p w e found_p
          mine in
      (
        ap (λ (q : Result (Unit {0}) × World). q.1)
            (not_open_is_skipped exit_text lower git managed is_inside env tenant who second r.id v
              (tenant_request-NotOpen exit_text lower git managed is_inside env tenant who r.id
                v.store closed_one)),
        foreign_raises exit_text lower git managed is_inside env other who (ok (d ∷ ds)) r w e
            (λ q. away (sym q ∙ mine)),
      )
