-- ===== src/WorkSteps/Plans.antt =====
-- `create_work_plan` of core/work_steps.py: versions, the active plan, the rows it adds.
use bsnexus.Domain.{
  WorkPlanCreatedBy, WorkPlanStatus, WorkStepStatus, deliverable_status_eq, deliverable_type_eq,
  proof_aspect_status_eq, proof_aspect_type_eq, proof_state_eq, request_status_eq,
  run_attempt_phase_eq, run_attempt_status_eq, work_plan_status_eq, work_step_status_eq,
}
use bsnexus.Effects.{ok}
use bsnexus.Models.{Request, WorkPlan, WorkStep, WorkStepDraft}
use bsnexus.Prelude.{
  All, All-map_imp, List, Option, [], ap, arith, count_if, count_if-append, filter, filter-append,
  head?, ltb, nat_eq, option_eq, order_by, order_by-append_first, refl, some, string_eq, true, ℕ,
  ◌++◌, ◌+◌, ◌<◌, ◌==◌, ◌∷◌, ◌≡◌, ◌≤◌,
}
use bsnexus.Store.{
  Store, decision_has_id, deliverable_has_id, get, project_has_id, request_has_id,
  run_attempt_has_id, work_step_has_id,
}
use bsnexus.Store.Tables.{get-update_found}
use bsnexus.WorkSteps.Defs.{
  create_work_plan, engaged, is_active_plan_of, make_steps, max_version, supersede,
}

max_version-ge :
    (r : ℕ) (ps : List WorkPlan)
    → All (λ p. (p.request_id == r) ≡ true → p.version ≤ max_version r ps) ps
unfolding max_version
max_version-ge r [] = tt
max_version-ge r (p ∷ ps) =
    (ground arith, All-map_imp (λ q h e. ground (arith, h e)) ps (max_version-ge r ps))

supersede_versions :
    (r n : ℕ) (ps : List WorkPlan)
    → All (λ p. (p.request_id == r) ≡ true → p.version ≤ n) ps
    → All (λ p. (p.request_id == r) ≡ true → p.version ≤ n) (supersede r ps)
unfolding supersede
supersede_versions r n [] h = tt
supersede_versions r n (p ∷ ps) h = (ground (arith, h.0), supersede_versions r n ps h.1)

supersede_none_active :
    (r : ℕ) (ps : List WorkPlan) → count_if (is_active_plan_of r) (supersede r ps) ≡ 0
unfolding supersede
supersede_none_active r [] = refl
supersede_none_active r (p ∷ ps) = ground (arith, supersede_none_active r ps)

created_lem :
    (r : ℕ) (drafts : List WorkStepDraft) (by : WorkPlanCreatedBy) (s t : Store) (plan : WorkPlan)
    → create_work_plan r drafts by s ≡ (ok plan, t)
    → (t.plans ≡ supersede r s.plans ++ plan ∷ [])
      × (plan.request_id ≡ r)
      × (plan.status ≡ WorkPlanStatus.active)
      × (plan.version ≡ max_version r s.plans + 1)
unfolding create_work_plan
created_lem r [] by s t plan e = absurd (cc)
created_lem r (d ∷ ds) by s t plan e = ground arith

-- When `create_work_plan` returns a plan, it is the request's one active plan, whatever was active before.
pub one_active_plan :
    (r : ℕ) (drafts : List WorkStepDraft) (by : WorkPlanCreatedBy) (s t : Store) (plan : WorkPlan)
    → create_work_plan r drafts by s ≡ (ok plan, t)
    → (count_if (is_active_plan_of r) t.plans ≡ 1) × (is_active_plan_of r plan ≡ true)
one_active_plan r drafts by s t plan e =
    let (rows, mine, live, v) = created_lem r drafts by s t plan e in
    let active : is_active_plan_of r plan ≡ true = ground arith in
    (
      rw (
        rows,
        count_if-append (is_active_plan_of r) (supersede r s.plans) (plan ∷ []),
        supersede_none_active r s.plans,
        active,
      ),
      active,
    )

-- `select(WorkPlan).where(request_id = …).order_by(version.desc()).limit(1)`
unfoldable pub latest_plan : ℕ → List WorkPlan → Option WorkPlan
latest_plan r ps =
    head? (order_by (λ a b. ltb b.version a.version) (filter (λ p. p.request_id == r) ps))

filter_below :
    (r : ℕ) (plan : WorkPlan) (n : ℕ) (ps : List WorkPlan)
    → n < plan.version
    → All (λ p. (p.request_id == r) ≡ true → p.version ≤ n) ps
    → All (λ p. ltb p.version plan.version ≡ true) (filter (λ p. p.request_id == r) ps)
filter_below r plan n [] h a = tt
filter_below r plan n (p ∷ ps) h a = ground (arith, filter_below r plan n ps h a.1, a.0)

latest_of_append :
    (r : ℕ) (plan : WorkPlan) (n : ℕ) (ps : List WorkPlan)
    → (plan.request_id == r) ≡ true
    → n < plan.version
    → All (λ p. (p.request_id == r) ≡ true → p.version ≤ n) ps
    → latest_plan r (ps ++ plan ∷ []) ≡ some plan
unfolding latest_plan
latest_of_append r plan n ps mine above h =
    rw (filter-append (λ p. p.request_id == r) ps (plan ∷ [])) (
      rw mine (
        ap head? (
          order_by-append_first (λ a b. ltb b.version a.version) plan
            (filter (λ p. p.request_id == r) ps) (filter_below r plan n ps above h))))

-- When `create_work_plan` returns a plan, that is the one that the request's finalizer reads, the plan of the
-- highest version: it is above every version that the request had.
pub created_plan_is_latest :
    (r : ℕ) (drafts : List WorkStepDraft) (by : WorkPlanCreatedBy) (s t : Store) (plan : WorkPlan)
    → create_work_plan r drafts by s ≡ (ok plan, t)
    → (latest_plan r t.plans ≡ some plan)
      × All (λ p. (p.request_id == r) ≡ true → p.version < plan.version) s.plans
created_plan_is_latest r drafts by s t plan e =
    let (rows, mine, live, v) = created_lem r drafts by s t plan e in
    (
      rw rows (
          latest_of_append r plan (max_version r s.plans) (supersede r s.plans)
            ((nat_eq.beq_iff plan.request_id r).1 mine) (omega arith)
            (supersede_versions r (max_version r s.plans) s.plans (max_version-ge r s.plans))),
      All-map_imp (λ p h q. omega (arith, h q, v)) s.plans (max_version-ge r s.plans),
    )

-- what `create_work_plan` adds for each draft
abbrev pub IsFresh : ℕ → ℕ → ℕ → List WorkStepDraft → List WorkStep → Type 0
IsFresh n r plan [] [] = Unit
IsFresh n r plan (d ∷ ds) (w ∷ ws) =
    (w.id ≡ n)
    × (w.request_id ≡ r)
    × (w.plan_id ≡ plan)
    × (w.draft ≡ d)
    × (w.status ≡ WorkStepStatus.pending)
    × (w.attempt_count ≡ 0)
    × IsFresh (n + 1) r plan ds ws
IsFresh n r plan _ _ = ⊥

make_steps-IsFresh :
    (n r plan : ℕ) (ds : List WorkStepDraft) → IsFresh n r plan ds (make_steps n r plan ds)
unfolding make_steps
make_steps-IsFresh n r plan [] = tt
make_steps-IsFresh n r plan (d ∷ ds) =
    (refl, refl, refl, refl, refl, refl, make_steps-IsFresh (n + 1) r plan ds)

-- For a request that exists, a plan of one draft or more is created with one new, pending, never
-- attempted step for each draft, in the drafts' order; the old steps stay, and the request's current
-- step is the first of the new ones.
pub created_steps :
    (r : ℕ) (d : WorkStepDraft) (ds : List WorkStepDraft) (by : WorkPlanCreatedBy) (s : Store)
    (q : Request)
    → get r s.requests ≡ some q
    → let (plan, t) = create_work_plan r (d ∷ ds) by s in
      (ws : List WorkStep) × (t.steps ≡ s.steps ++ ws)
      × IsFresh (s.next_id + 1) r s.next_id (d ∷ ds) ws
      × (get r t.requests ≡ some (engaged (s.next_id + 1) q))
unfolding create_work_plan
created_steps r d ds by s q found_q = (
  make_steps (s.next_id + 1) r s.next_id (d ∷ ds),
  refl,
  make_steps-IsFresh (s.next_id + 1) r s.next_id (d ∷ ds),
  get-update_found r (engaged (s.next_id + 1)) s.requests q (λ x. refl) found_q,
)
