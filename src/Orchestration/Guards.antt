-- ===== src/Orchestration/Guards.antt =====
-- core/orchestration.py: the finalization of a Request, and the status `open`.
use bsnexus.Domain.{
  RequestStatus, deliverable_status_eq, deliverable_type_eq, proof_aspect_status_eq,
  proof_aspect_type_eq, proof_state_eq, request_status_eq, run_attempt_phase_eq,
  run_attempt_status_eq, work_plan_status_eq, work_step_status_eq,
}
use bsnexus.Effects.{Exec, Result-cases, ◌>>◌}
use bsnexus.GitOps.Branch.{GitEnv}
use bsnexus.Models.{Request, WorkStep}
use bsnexus.Orchestration.Defs.{
  finalize_steps, is_ready, is_stuck, is_terminal_step, maybe_finalize_request,
  open_decision_step_ids, raise_decisions, steps_of_plan,
}
use bsnexus.Orchestration.Finalize.{raise-SameElsewhere}
use bsnexus.Prelude.{
  Bool-cases, List, Option, Option-cases, String, all, any, arith, filter, inl, inr, int_eq, length,
  nat_beq, nat_eq, not, option_eq, some, string_eq, ℕ, ℤ, ◌==◌, ◌≢◌,
}
use bsnexus.Store.{
  Store, decision_has_id, deliverable_has_id, get, project_has_id, request_has_id,
  run_attempt_has_id, work_step_has_id,
}
use bsnexus.WorkSteps.Defs.{transition_request}
use bsnexus.WorkSteps.Plans.{latest_plan}
use bsnexus.WorkSteps.Requests.{status_of, transition_request_exact}

-- the Request, if there is one, is not open
abbrev pub NotOpen : ℕ → Store → Type 0
NotOpen key s = status_of key s.requests ≢ some RequestStatus.«open»

-- a method after which a Request is not open, if it was not before
abbrev pub Guards : ℕ → {A : Type 0} → Exec Store A → Type 0
Guards key m = (s : Store) → NotOpen key s → NotOpen key (m s).1

then-Guards :
    (key : ℕ) (m n : Exec Store (Unit {0})) → Guards key m → Guards key n → Guards key (m >> n)
then-Guards key m n hm hn s h = elim (Result-cases (m s).0) [
  | inl (a, e) ↦ rw e (hn (m s).1 (hm s h))
  | inr (x, e) ↦ rw e (hm s h)
]

module _ (exit_text : Option ℤ → String) (lower : String → String) (git : GitEnv) (key : ℕ) where
  transition_request-Guards :
      (k : ℕ) (target : RequestStatus)
      → target ≢ RequestStatus.«open»
      → Guards key (transition_request lower git k target)
  unfolding transition_request
  transition_request-Guards k target closes s h = elim (Option-cases (get k s.requests)) [
    | inl e ↦ rw (e, transition_request) h
    | inr (r, e) ↦
        let (exact, same) = transition_request_exact lower git k key target s r e in
        ground (arith, exact, h, closes)
  ]

  finalize_steps-Guards :
      (r : Request) (steps : List WorkStep)
      → Guards key (finalize_steps exit_text lower git r steps)
  unfolding finalize_steps
  finalize_steps-Guards r steps s h =
      elim (Bool-cases (any (λ w. not (is_terminal_step w)) steps)) [
        | inl a ↦ rw (a, finalize_steps) h
        | inr a ↦ elim (Bool-cases (any is_stuck steps)) [
          | inl b ↦
              let open_ids = open_decision_step_ids r.id s.decisions in
              let stuck = filter is_stuck steps in
              let requests = (raise-SameElsewhere exit_text r open_ids stuck s).0 in
              rw (a, b, finalize_steps)
                (transition_request-Guards r.id RequestStatus.needs_decision (λ e. cc)
                  (raise_decisions exit_text r open_ids stuck s) (rw requests h))
          | inr b ↦ elim (Bool-cases (all is_ready steps)) [
            | inl c ↦
                rw (a, b, c, finalize_steps)
                  (then-Guards key (transition_request lower git r.id RequestStatus.review_ready)
                    (transition_request lower git r.id RequestStatus.shipped)
                    (transition_request-Guards r.id RequestStatus.review_ready (λ e. cc))
                    (transition_request-Guards r.id RequestStatus.shipped (λ e. cc)) s h)
            | inr c ↦ rw (a, b, c, finalize_steps) h
          ]
        ]
      ]

  pub maybe_finalize-Guards :
      (r : Request) → Guards key (maybe_finalize_request exit_text lower git r)
  unfolding maybe_finalize_request
  maybe_finalize-Guards r s h = elim (Bool-cases (r.status == RequestStatus.running)) [
    | inr a ↦ rw (a, maybe_finalize_request) h
    | inl a ↦ elim (Option-cases (latest_plan r.id s.plans)) [
      | inl e ↦ rw (a, e, maybe_finalize_request) h
      | inr (p, e) ↦
          let steps = steps_of_plan p.id s.steps in
          elim (Bool-cases (nat_beq (length steps) 0)) [
            | inl b ↦ rw (a, e, b, maybe_finalize_request) h
            | inr b ↦ rw (a, e, b, maybe_finalize_request) (finalize_steps-Guards r steps s h)
          ]
    ]
  ]
