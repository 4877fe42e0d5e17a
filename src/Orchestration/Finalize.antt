-- ===== src/Orchestration/Finalize.antt =====
-- `_maybe_finalize_request` of core/orchestration.py: where it leaves the Request.
use bsnexus.Domain.{
  RequestStatus, deliverable_status_eq, deliverable_type_eq, proof_aspect_status_eq,
  proof_aspect_type_eq, proof_state_eq, request_status_eq, run_attempt_phase_eq,
  run_attempt_status_eq, work_plan_status_eq, work_step_status_eq,
}
use bsnexus.Effects.{Result, continue, ok, ◌>>◌}
use bsnexus.GitOps.Branch.{GitEnv}
use bsnexus.Models.{Request, WorkPlan, WorkStep}
use bsnexus.Orchestration.Defs.{
  create_blocking_decision, finalize_steps, is_ready, is_stuck, is_terminal_step,
  maybe_finalize_request, open_decision_step_ids, raise_decisions, steps_of_plan,
}
use bsnexus.Prelude.{
  Bool, Bool-cases, List, Option, String, [], all, any, ap, arith, contains, false, filter,
  if◌then◌else◌, inl, inr, int_eq, length, nat_beq, nat_eq, not, option_eq, refl, some, string_eq,
  sym, true, ℕ, ℤ, ◌==◌, ◌∙◌, ◌∷◌, ◌≡◌,
}
use bsnexus.StateMachines.{can_transition_request}
use bsnexus.Store.{
  Store, decision_has_id, deliverable_has_id, get, project_has_id, request_has_id,
  run_attempt_has_id, update, work_step_has_id,
}
use bsnexus.Store.Tables.{get-update_found}
use bsnexus.WorkSteps.Defs.{
  request_has_verified_deliverable_proof, set_request_status, transition_request,
}
use bsnexus.WorkSteps.Plans.{latest_plan}
use bsnexus.WorkSteps.Requests.{request_moves, status_of, transition_request_exact}

module _ (exit_text : Option ℤ → String) where
  pub raise-SameElsewhere :
      (r : Request) (open_ids : List (Option ℕ)) (stuck : List WorkStep) (s : Store)
      → let t = raise_decisions exit_text r open_ids stuck s in
        (t.requests ≡ s.requests)
        × (t.steps ≡ s.steps)
        × (t.attempts ≡ s.attempts)
        × (t.deliverables ≡ s.deliverables)
        × (t.plans ≡ s.plans)
  unfolding raise_decisions create_blocking_decision
  raise-SameElsewhere r open_ids [] s = (refl, refl, refl, refl, refl)
  raise-SameElsewhere r open_ids (w ∷ stuck) s = elim (Bool-cases (contains (some w.id) open_ids)) [
    | inl h ↦ rw (h, raise_decisions) (raise-SameElsewhere r open_ids stuck s)
    | inr h ↦ rw (h, raise_decisions) (raise-SameElsewhere r open_ids stuck _)
  ]

  -- the status in which finalization leaves a running Request with these steps
  abbrev pub outcome_of : List WorkStep → Bool → RequestStatus
  outcome_of steps proven =
      if any (λ w. not (is_terminal_step w)) steps
      then RequestStatus.running
      else if any is_stuck steps
      then RequestStatus.needs_decision
      else if all is_ready steps
      then (if proven then RequestStatus.shipped else RequestStatus.review_ready)
      else RequestStatus.running

  module _ (lower : String → String) (env : GitEnv) where
    park :
        (j : ℕ) (r : Request) (target : RequestStatus) (s : Store)
        → get r.id s.requests ≡ some r
        → can_transition_request r.status target ≡ true
        → (target == RequestStatus.shipped) ≡ false
        → status_of j (transition_request lower env r.id target s).1.requests
          ≡ (if r.id == j then some target else status_of j s.requests)
    park j r target s e c h =
        (transition_request_exact lower env r.id j target s r e).0 ∙ ground (arith, c, h)

    ship :
        (j : ℕ) (r : Request) (s : Store)
        → get r.id s.requests ≡ some r
        → r.status ≡ RequestStatus.running
        → status_of j
            ((transition_request lower env r.id RequestStatus.review_ready
                >> transition_request lower env r.id RequestStatus.shipped)
              s).1.requests
          ≡ (if r.id == j
              then some (
                  if request_has_verified_deliverable_proof r.id s.deliverables
                  then RequestStatus.shipped
                  else RequestStatus.review_ready)
              else status_of j s.requests)
    unfolding can_transition_request
    ship j r s e run =
        let s1 = record s {
          requests = update r.id (set_request_status RequestStatus.review_ready) s.requests;
        } in
        let c : can_transition_request r.status RequestStatus.review_ready ≡ true = rw run refl in
        let m = request_moves lower env r.id RequestStatus.review_ready s r e c refl in
        let shipping = transition_request lower env r.id RequestStatus.shipped in
        let first =
          ap (λ (q : Result (Unit {0}) × Store). status_of j q.1.requests) (sym m)
          ∙ park j r RequestStatus.review_ready s e c refl in
        let second =
          (transition_request_exact lower env r.id j RequestStatus.shipped s1
            (set_request_status RequestStatus.review_ready r)
            (get-update_found r.id (set_request_status RequestStatus.review_ready) s.requests r
              (λ x. refl) e)).0 in
        ap
          (λ (q : Result (Unit {0}) × Store).
            status_of j (continue q.0 (λ _. shipping) q.1).1.requests)
          m
        ∙ second
        ∙ ground (arith, first)

    own_status :
        (k j : ℕ) (s : Store) (st : RequestStatus) {r : Request}
        → get k s.requests ≡ some r
        → r.status ≡ st
        → status_of j s.requests ≡ (if k == j then some st else status_of j s.requests)
    own_status k j s st {r} e run = elim (Bool-cases (k == j)) [
      | inl h ↦ rw (h, ← (nat_eq.beq_iff k j).0 h, e, run) refl
      | inr h ↦ rw h refl
    ]

    finalize_steps_exact :
        (j : ℕ) (r : Request) (steps : List WorkStep) (s : Store)
        → get r.id s.requests ≡ some r
        → r.status ≡ RequestStatus.running
        → status_of j (finalize_steps exit_text lower env r steps s).1.requests ≡ (
            if r.id == j
            then some
                (outcome_of steps (request_has_verified_deliverable_proof r.id s.deliverables))
            else status_of j s.requests)
    unfolding finalize_steps can_transition_request
    finalize_steps_exact j r steps s e run =
        elim (Bool-cases (any (λ w. not (is_terminal_step w)) steps)) [
          | inl h ↦ rw (h, finalize_steps) (own_status r.id j s RequestStatus.running e run)
          | inr h ↦ elim (Bool-cases (any is_stuck steps)) [
            | inl h2 ↦
                let ids = open_decision_step_ids r.id s.decisions in
                let same = raise-SameElsewhere r ids (filter is_stuck steps) s in
                rw (h, h2, finalize_steps)
                  (park j r RequestStatus.needs_decision
                      (raise_decisions exit_text r ids (filter is_stuck steps) s)
                      (ap (get r.id) same.0 ∙ e) (rw run refl) refl
                    ∙ rw same.0 refl)
            | inr h2 ↦ elim (Bool-cases (all is_ready steps)) [
              | inl h3 ↦ rw (h, h2, h3, finalize_steps) (ship j r s e run)
              | inr h3 ↦
                  rw (h, h2, h3, finalize_steps) (own_status r.id j s RequestStatus.running e run)
            ]
          ]
        ]

    -- the same for a plan's steps, of which there may be none
    abbrev pub plan_outcome : List WorkStep → Bool → RequestStatus
    plan_outcome steps proven =
        if nat_beq (length steps) 0 then RequestStatus.running else outcome_of steps proven

    pub finalize_at_plan :
        (r : Request) (p : WorkPlan) (s : Store)
        → r.status ≡ RequestStatus.running
        → latest_plan r.id s.plans ≡ some p
        → maybe_finalize_request exit_text lower env r s ≡ (
            if nat_beq (length (steps_of_plan p.id s.steps)) 0
            then (ok tt, s)
            else finalize_steps exit_text lower env r (steps_of_plan p.id s.steps) s)
    unfolding maybe_finalize_request
    finalize_at_plan r p s run e =
        let running : (r.status == RequestStatus.running) ≡ true = rw run refl in
        rw (running, e) refl

    -- A running Request whose latest plan is `p` is left, by the steps of `p`: running while a step is
    -- at work, or all are `review_ready` or `skipped` and one is `skipped`, or there is none; else in
    -- `needs_decision` where a step is stuck; else `shipped` where the proof gate is open, and in
    -- `review_ready` where it is not. No other Request's status changes.
    pub maybe_finalize_exact :
        (j : ℕ) (r : Request) (p : WorkPlan) (s : Store)
        → get r.id s.requests ≡ some r
        → r.status ≡ RequestStatus.running
        → latest_plan r.id s.plans ≡ some p
        → status_of j (maybe_finalize_request exit_text lower env r s).1.requests ≡ (
            if r.id == j
            then some (
                plan_outcome
                  (steps_of_plan p.id s.steps)
                  (request_has_verified_deliverable_proof r.id s.deliverables))
            else status_of j s.requests)
    maybe_finalize_exact j r p s e run plan =
        let steps = steps_of_plan p.id s.steps in
        rw (finalize_at_plan r p s run plan) (elim (Bool-cases (nat_beq (length steps) 0)) [
          | inl h ↦ rw h (own_status r.id j s RequestStatus.running e run)
          | inr h ↦ rw h (finalize_steps_exact j r steps s e run)
        ])
