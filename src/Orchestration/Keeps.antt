-- ===== src/Orchestration/Keeps.antt =====
-- What finalization of core/orchestration.py leaves alone: it writes Requests and Decisions only.
use bsnexus.Domain.{
  RequestStatus, deliverable_status_eq, deliverable_type_eq, proof_aspect_status_eq,
  proof_aspect_type_eq, proof_state_eq, request_status_eq, run_attempt_phase_eq,
  run_attempt_status_eq, work_plan_status_eq, work_step_status_eq,
}
use bsnexus.Effects.{Exec, Result-cases, ◌>>◌}
use bsnexus.GitOps.Branch.{GitEnv}
use bsnexus.Models.{Request, WorkStep}
use bsnexus.Orchestration.Defs.{
  finalize_for_step, finalize_steps, is_ready, is_stuck, is_terminal_step, maybe_finalize_request,
  open_decision_step_ids, raise_decisions, steps_of_plan,
}
use bsnexus.Orchestration.Finalize.{raise-SameElsewhere}
use bsnexus.Prelude.{
  Bool-cases, List, Option, Option-cases, String, all, any, filter, inl, inr, int_eq, length,
  nat_beq, nat_eq, not, option_eq, refl, string_eq, ℕ, ℤ, ◌==◌, ◌∙◌, ◌≡◌,
}
use bsnexus.Store.{
  Store, decision_has_id, deliverable_has_id, get, project_has_id, request_has_id,
  run_attempt_has_id, work_step_has_id,
}
use bsnexus.WorkSteps.Defs.{transition_request}
use bsnexus.WorkSteps.Plans.{latest_plan}
use bsnexus.WorkSteps.Requests.{transition_request_exact}

pub record Kept (s t : Store) : Type 0 where
  pub steps : t.steps ≡ s.steps
  pub attempts : t.attempts ≡ s.attempts
  pub deliverables : t.deliverables ≡ s.deliverables
  pub plans : t.plans ≡ s.plans

pub Kept-refl : (s : Store) → Kept s s
Kept-refl s = record { steps = refl; attempts = refl; deliverables = refl; plans = refl }

pub Kept-trans : {s t u : Store} → Kept s t → Kept t u → Kept s u
Kept-trans h g = record {
  steps = g.steps ∙ h.steps;
  attempts = g.attempts ∙ h.attempts;
  deliverables = g.deliverables ∙ h.deliverables;
  plans = g.plans ∙ h.plans;
}

-- a method that keeps the tables, whatever it starts from
abbrev pub Keeps : {A : Type 0} → Exec Store A → Type 0
Keeps m = (s : Store) → Kept s (m s).1

pub then-Keeps :
    {A B : Type 0} (m : Exec Store A) (n : Exec Store B) → Keeps m → Keeps n → Keeps (m >> n)
then-Keeps m n hm hn s = elim (Result-cases (m s).0) [
  | inl (a, e) ↦ rw e (Kept-trans (hm s) (hn (m s).1))
  | inr (x, e) ↦ rw e (hm s)
]

module _ (exit_text : Option ℤ → String) (lower : String → String) (env : GitEnv) where
  pub transition_request-Keeps :
      (k : ℕ) (target : RequestStatus) → Keeps (transition_request lower env k target)
  unfolding transition_request
  transition_request-Keeps k target s = elim (Option-cases (get k s.requests)) [
    | inl e ↦ rw (e, transition_request) (Kept-refl s)
    | inr (r, e) ↦
        let same = (transition_request_exact lower env k k target s r e).1 in
        record {
          steps = same.steps;
          attempts = same.attempts;
          deliverables = same.deliverables;
          plans = same.plans;
        }
  ]

  raise-Kept :
      (r : Request) (open_ids : List (Option ℕ)) (stuck : List WorkStep) (s : Store)
      → Kept s (raise_decisions exit_text r open_ids stuck s)
  raise-Kept r open_ids stuck s =
      let (requests, steps, attempts, deliverables, plans) =
        raise-SameElsewhere exit_text r open_ids stuck s in
      record { steps = steps; attempts = attempts; deliverables = deliverables; plans = plans }

  finalize_steps-Keeps :
      (r : Request) (steps : List WorkStep) → Keeps (finalize_steps exit_text lower env r steps)
  unfolding finalize_steps
  finalize_steps-Keeps r steps s = elim (Bool-cases (any (λ w. not (is_terminal_step w)) steps)) [
    | inl h ↦ rw (h, finalize_steps) (Kept-refl s)
    | inr h ↦ elim (Bool-cases (any is_stuck steps)) [
      | inl h2 ↦
          rw (h, h2, finalize_steps)
            (Kept-trans
              (raise-Kept r (open_decision_step_ids r.id s.decisions) (filter is_stuck steps) s)
              (transition_request-Keeps r.id RequestStatus.needs_decision _))
      | inr h2 ↦ elim (Bool-cases (all is_ready steps)) [
        | inl h3 ↦
            rw (h, h2, h3, finalize_steps)
              (then-Keeps (transition_request lower env r.id RequestStatus.review_ready)
                (transition_request lower env r.id RequestStatus.shipped)
                (transition_request-Keeps r.id RequestStatus.review_ready)
                (transition_request-Keeps r.id RequestStatus.shipped) s)
        | inr h3 ↦ rw (h, h2, h3, finalize_steps) (Kept-refl s)
      ]
    ]
  ]

  pub maybe_finalize-Keeps : (r : Request) → Keeps (maybe_finalize_request exit_text lower env r)
  unfolding maybe_finalize_request
  maybe_finalize-Keeps r s = elim (Bool-cases (r.status == RequestStatus.running)) [
    | inr h ↦ rw (h, maybe_finalize_request) (Kept-refl s)
    | inl h ↦ elim (Option-cases (latest_plan r.id s.plans)) [
      | inl e ↦ rw (h, e, maybe_finalize_request) (Kept-refl s)
      | inr (p, e) ↦
          let steps = steps_of_plan p.id s.steps in
          elim (Bool-cases (nat_beq (length steps) 0)) [
            | inl h2 ↦ rw (h, e, h2, maybe_finalize_request) (Kept-refl s)
            | inr h2 ↦ rw (h, e, h2, maybe_finalize_request) (finalize_steps-Keeps r steps s)
          ]
    ]
  ]

  pub finalize_for_step-Keeps : (w : WorkStep) → Keeps (finalize_for_step exit_text lower env w)
  unfolding finalize_for_step
  finalize_for_step-Keeps w s = elim (Option-cases (get w.request_id s.requests)) [
    | inl e ↦ rw (e, finalize_for_step) (Kept-refl s)
    | inr (r, e) ↦ rw (e, finalize_for_step) (maybe_finalize-Keeps r s)
  ]
