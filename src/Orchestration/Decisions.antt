-- ===== src/Orchestration/Decisions.antt =====
-- The founder Decisions that `_maybe_finalize_request` of core/orchestration.py raises.
use bsnexus.Domain.{
  RequestStatus, deliverable_status_eq, deliverable_type_eq, proof_aspect_status_eq,
  proof_aspect_type_eq, proof_state_eq, request_status_eq, run_attempt_phase_eq,
  run_attempt_status_eq, work_plan_status_eq, work_step_status_eq,
}
use bsnexus.Effects.{ok}
use bsnexus.GitOps.Branch.{GitEnv}
use bsnexus.Models.{Decision, Request, WorkPlan, WorkStep}
use bsnexus.Orchestration.Defs.{
  create_blocking_decision, finalize_steps, is_stuck, is_terminal_step, maybe_finalize_request,
  open_decision_step_ids, raise_decisions, steps_of_plan,
}
use bsnexus.Orchestration.Details.{work_step_failure_detail, work_step_status_text}
use bsnexus.Orchestration.Finalize.{finalize_at_plan, raise-SameElsewhere}
use bsnexus.Prelude.{
  Bool, Bool-cases, List, Option, String, [], all, any, ap, arith, contains, count_if, false,
  filter, if◌then◌else◌, inl, inr, int_eq, join_text, length, length-append, nat_beq, nat_eq, not,
  option_eq, refl, some, string_eq, true, ℕ, ℤ, ◌++◌, ◌+◌, ◌==◌, ◌||◌, ◌∙◌, ◌∷◌, ◌≡◌,
}
use bsnexus.StateMachines.{can_transition_request}
use bsnexus.Store.{
  Store, decision_has_id, deliverable_has_id, get, project_has_id, request_has_id,
  run_attempt_has_id, work_step_has_id,
}
use bsnexus.WorkSteps.Defs.{transition_request}
use bsnexus.WorkSteps.Plans.{latest_plan}
use bsnexus.WorkSteps.Requests.{status_of, transition_request_exact}

-- the Request has an open Decision on the step
abbrev pub has_open_decision : ℕ → ℕ → List Decision → Bool
has_open_decision request step ds = contains (some step) (open_decision_step_ids request ds)

open_ids-append :
    (k : ℕ) (ds es : List Decision)
    → open_decision_step_ids k (ds ++ es)
      ≡ open_decision_step_ids k ds ++ open_decision_step_ids k es
unfolding open_decision_step_ids
open_ids-append k [] es = refl
open_ids-append k (d ∷ ds) es = ground (arith, open_ids-append k ds es)

contains-append :
    (x : Option ℕ) (xs ys : List (Option ℕ))
    → contains x (xs ++ ys) ≡ (contains x xs || contains x ys)
contains-append x [] ys = refl
contains-append x (y ∷ xs) ys = ground (arith, contains-append x xs ys)

module _ (exit_text : Option ℤ → String) where
  -- the store once the Decision on `w` is there
  abbrev raised : Request → WorkStep → Store → Store
  raised r w s =
      (create_blocking_decision r (some w) (join_text "work_step_" (work_step_status_text w.status))
        (work_step_failure_detail exit_text w s) s).1

  raised_open :
      (r : Request) (w : WorkStep) (s : Store) (step : ℕ)
      → has_open_decision r.id step (raised r w s).decisions
        ≡ (has_open_decision r.id step s.decisions || (some step == some w.id))
  unfolding create_blocking_decision open_decision_step_ids
  raised_open r w s step =
      ap (contains (some step)) (open_ids-append r.id s.decisions _)
      ∙ contains-append (some step) (open_decision_step_ids r.id s.decisions) _
      ∙ ground arith

  length-raised :
      (r : Request) (w : WorkStep) (s : Store)
      → length (raised r w s).decisions ≡ length s.decisions + 1
  unfolding create_blocking_decision
  length-raised r w s = length-append s.decisions _

  raise_keeps :
      (r : Request) (open_ids : List (Option ℕ)) (stuck : List WorkStep) (s : Store) (step : ℕ)
      → has_open_decision r.id step s.decisions ≡ true
      → has_open_decision r.id step (raise_decisions exit_text r open_ids stuck s).decisions ≡ true
  unfolding raise_decisions
  raise_keeps r open_ids [] s step h = h
  raise_keeps r open_ids (w ∷ stuck) s step h = elim (Bool-cases (contains (some w.id) open_ids)) [
    | inl c ↦ rw (c, raise_decisions) (raise_keeps r open_ids stuck s step h)
    | inr c ↦
        rw (c, raise_decisions)
          (raise_keeps r open_ids stuck (raised r w s) step
            (ground (arith, raised_open r w s step, h)))
  ]

  -- the store after the turn of `w`
  abbrev after : Request → List (Option ℕ) → WorkStep → Store → Store
  after r open_ids w s = if contains (some w.id) open_ids then s else raised r w s

  -- every step whose id was read has an open Decision
  abbrev Known : Request → List (Option ℕ) → Store → Type 0
  Known r open_ids s =
      (step : ℕ)
      → contains (some step) open_ids ≡ true
      → has_open_decision r.id step s.decisions ≡ true

  after-Known :
      (r : Request) (open_ids : List (Option ℕ)) (w : WorkStep) (s : Store)
      → Known r open_ids s
      → Known r open_ids (after r open_ids w s)
  after-Known r open_ids w s known step h = elim (Bool-cases (contains (some w.id) open_ids)) [
    | inl c ↦ rw c (known step h)
    | inr c ↦ rw c (ground (arith, raised_open r w s step, known step h))
  ]

  after_open :
      (r : Request) (open_ids : List (Option ℕ)) (w : WorkStep) (s : Store)
      → Known r open_ids s
      → has_open_decision r.id w.id (after r open_ids w s).decisions ≡ true
  after_open r open_ids w s known = elim (Bool-cases (contains (some w.id) open_ids)) [
    | inl c ↦ rw c (known w.id c)
    | inr c ↦ rw c (ground (arith, raised_open r w s w.id))
  ]

  raise_covers :
      (r : Request) (open_ids : List (Option ℕ)) (stuck : List WorkStep) (s : Store)
      → Known r open_ids s
      → all
          (λ w.
            has_open_decision r.id w.id (raise_decisions exit_text r open_ids stuck s).decisions)
          stuck
        ≡ true
  unfolding raise_decisions
  raise_covers r open_ids [] s known = refl
  raise_covers r open_ids (w ∷ stuck) s known = ground (
    arith,
    raise_covers r open_ids stuck (after r open_ids w s) (after-Known r open_ids w s known),
    raise_keeps r open_ids stuck (after r open_ids w s) w.id (after_open r open_ids w s known),
  )

  raise_length :
      (r : Request) (open_ids : List (Option ℕ)) (stuck : List WorkStep) (s : Store)
      → length (raise_decisions exit_text r open_ids stuck s).decisions
        ≡ length s.decisions + count_if (λ w. not (contains (some w.id) open_ids)) stuck
  unfolding raise_decisions
  raise_length r open_ids [] s = omega arith
  raise_length r open_ids (w ∷ stuck) s = elim (Bool-cases (contains (some w.id) open_ids)) [
    | inl c ↦ rw (c, raise_decisions) (raise_length r open_ids stuck s)
    | inr c ↦
        rw (c, raise_decisions)
          (ground (arith, raise_length r open_ids stuck (raised r w s), length-raised r w s))
  ]

  module _ (lower : String → String) (env : GitEnv) where
    raise_then_park :
        (r : Request) (p : WorkPlan) (s : Store)
        → r.status ≡ RequestStatus.running
        → latest_plan r.id s.plans ≡ some p
        → any (λ w. not (is_terminal_step w)) (steps_of_plan p.id s.steps) ≡ false
        → any is_stuck (steps_of_plan p.id s.steps) ≡ true
        → maybe_finalize_request exit_text lower env r s
          ≡ transition_request lower env r.id RequestStatus.needs_decision (
              raise_decisions exit_text r
                (open_decision_step_ids r.id s.decisions)
                (filter is_stuck (steps_of_plan p.id s.steps))
                s)
    unfolding finalize_steps
    raise_then_park r p s run plan idle stuck =
        finalize_at_plan exit_text lower env r p s run plan
        ∙ some_step (steps_of_plan p.id s.steps) idle stuck
      where
        some_step :
            (steps : List WorkStep)
            → any (λ w. not (is_terminal_step w)) steps ≡ false
            → any is_stuck steps ≡ true
            → (if nat_beq (length steps) 0
                then (ok tt, s)
                else finalize_steps exit_text lower env r steps s)
              ≡ transition_request lower env r.id RequestStatus.needs_decision (
                  raise_decisions exit_text r
                    (open_decision_step_ids r.id s.decisions)
                    (filter is_stuck steps)
                    s)
        some_step [] idle stuck = cc
        some_step (w ∷ steps) idle stuck = ground (arith, idle, stuck)

    -- No dead end: when no step of the latest plan is at work and one is stuck, a running Request is
    -- left in `needs_decision`, every stuck step has an open Decision of the Request, and exactly one
    -- Decision is added for each stuck step that had none.
    pub stuck_steps_get_decisions :
        (r : Request) (p : WorkPlan) (s : Store)
        → get r.id s.requests ≡ some r
        → r.status ≡ RequestStatus.running
        → latest_plan r.id s.plans ≡ some p
        → any (λ w. not (is_terminal_step w)) (steps_of_plan p.id s.steps) ≡ false
        → any is_stuck (steps_of_plan p.id s.steps) ≡ true
        → let stuck = filter is_stuck (steps_of_plan p.id s.steps) in
          let t = (maybe_finalize_request exit_text lower env r s).1 in
          (status_of r.id t.requests ≡ some RequestStatus.needs_decision)
          × (all (λ w. has_open_decision r.id w.id t.decisions) stuck ≡ true)
          × (length t.decisions
              ≡ length s.decisions
                + count_if (λ w. not (has_open_decision r.id w.id s.decisions)) stuck)
    unfolding can_transition_request
    stuck_steps_get_decisions r p s e run plan idle some_stuck =
        let c : can_transition_request r.status RequestStatus.needs_decision ≡ true = rw run refl in
        let steps = steps_of_plan p.id s.steps in
        let stuck = filter is_stuck steps in
        let ids = open_decision_step_ids r.id s.decisions in
        let s1 = raise_decisions exit_text r ids stuck s in
        let same = raise-SameElsewhere exit_text r ids stuck s in
        let moved =
          transition_request_exact lower env r.id r.id RequestStatus.needs_decision s1 r
            (ap (get r.id) same.0 ∙ e) in
        rw (raise_then_park r p s run plan idle some_stuck) (
          moved.0 ∙ ground (arith, c),
          ap (λ ds. all (λ w. has_open_decision r.id w.id ds) stuck) moved.1.decisions
              ∙ raise_covers r ids stuck s (λ step h. h),
          ap (λ (ds : List Decision). length ds) moved.1.decisions ∙ raise_length r ids stuck s,
        )
