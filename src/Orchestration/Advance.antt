-- ===== src/Orchestration/Advance.antt =====
-- `advance_request_after_proof` of core/orchestration.py: where a proof leaves its WorkStep.
use mathlib.Core.Option
use bsnexus.Domain.{
  ProofState, WorkStepStatus, deliverable_status_eq, deliverable_type_eq, proof_aspect_status_eq,
  proof_aspect_type_eq, proof_state_eq, request_status_eq, run_attempt_phase_eq,
  run_attempt_status_eq, work_plan_status_eq, work_step_status_eq,
}
use bsnexus.Effects.{Result, ok}
use bsnexus.GitOps.Branch.{GitEnv}
use bsnexus.Models.{Deliverable, WorkStep}
use bsnexus.Orchestration.Defs.{advance_request_after_proof, settle_step}
use bsnexus.Orchestration.Keeps.{finalize_for_step-Keeps}
use bsnexus.Prelude.{
  Bool-cases, List, Option, String, ap, if◌then◌else◌, inl, inr, int_eq, nat_eq, option_eq, refl,
  some, string_eq, true, ℕ, ℤ, ◌==◌, ◌||◌, ◌∙◌, ◌≡◌,
}
use bsnexus.StateMachines.{can_transition_work_step}
use bsnexus.Store.{
  Store, decision_has_id, deliverable_has_id, get, project_has_id, request_has_id,
  run_attempt_has_id, update, work_step_has_id,
}
use bsnexus.Store.Tables.{get-update}
use bsnexus.WorkSteps.Defs.{moved_step, transition_work_step}
use bsnexus.WorkSteps.Steps.{transition_moves}

abbrev pub step_status_of : ℕ → List WorkStep → Option WorkStepStatus
step_status_of k ws = Option.map (λ w. w.status) (get k ws)

-- where a proof state leaves a step that waits for it
abbrev pub settled_status : ProofState → WorkStepStatus
settled_status proof =
    if proof == ProofState.verified
    then WorkStepStatus.review_ready
    else if proof == ProofState.verification_failed || proof == ProofState.human_review_required
    then WorkStepStatus.failed
    else WorkStepStatus.verifying

pub step_moves :
    (w : WorkStep) (target : WorkStepStatus) (s : Store) (k : ℕ)
    → get w.id s.steps ≡ some w
    → step_status_of k (update w.id (moved_step target) s.steps)
      ≡ (if w.id == k then some target else step_status_of k s.steps)
unfolding moved_step
step_moves w target s k e =
    ap (Option.map (λ (v : WorkStep). v.status))
      (get-update w.id k (moved_step target) s.steps (λ x. refl))
    ∙ (elim (Bool-cases (w.id == k)) [
      | inl h ↦ rw (h, ← (nat_eq.beq_iff w.id k).0 h, e) refl
      | inr h ↦ rw h refl
    ])

-- what `settle_step` leaves: no exception, and the step's new status
abbrev Settles : ProofState → WorkStep → Store → Result (Unit {0}) × Store → Type 0
Settles proof w s r =
    (r.0 ≡ ok tt)
    × ((k : ℕ)
        → step_status_of k r.1.steps
          ≡ (if w.id == k then some (settled_status proof) else step_status_of k s.steps))

settle_moves :
    (w : WorkStep) (target : WorkStepStatus) (proof : ProofState) (s : Store)
    → get w.id s.steps ≡ some w
    → can_transition_work_step w.status target ≡ true
    → settled_status proof ≡ target
    → Settles proof w s (transition_work_step w.id target s)
settle_moves w target proof s e c q =
    rw (transition_moves w.id target s w e c, q) (refl, λ k. step_moves w target s k e)

pub own_step :
    (w : WorkStep) (s : Store) (k : ℕ)
    → get w.id s.steps ≡ some w
    → step_status_of k s.steps ≡ (if w.id == k then some w.status else step_status_of k s.steps)
own_step w s k e = elim (Bool-cases (w.id == k)) [
  | inl h ↦ rw (h, ← (nat_eq.beq_iff w.id k).0 h, e) refl
  | inr h ↦ rw h refl
]

settle :
    (proof : ProofState) (w : WorkStep) (s : Store)
    → get w.id s.steps ≡ some w
    → w.status ≡ WorkStepStatus.verifying
    → Settles proof w s (settle_step proof w s)
unfolding settle_step can_transition_work_step
settle ProofState.verification_missing w s e v =
    let waits : (w.status == WorkStepStatus.verifying) ≡ true = rw v refl in
    rw (waits, settle_step) (refl, λ k. own_step w s k e ∙ rw v refl)
settle ProofState.verifying w s e v =
    let waits : (w.status == WorkStepStatus.verifying) ≡ true = rw v refl in
    rw (waits, settle_step) (refl, λ k. own_step w s k e ∙ rw v refl)
settle ProofState.verified w s e v =
    let waits : (w.status == WorkStepStatus.verifying) ≡ true = rw v refl in
    rw (waits, settle_step)
      (settle_moves w WorkStepStatus.review_ready ProofState.verified s e (rw v refl) refl)
settle ProofState.verification_failed w s e v =
    let waits : (w.status == WorkStepStatus.verifying) ≡ true = rw v refl in
    rw (waits, settle_step)
      (settle_moves w WorkStepStatus.failed ProofState.verification_failed s e (rw v refl) refl)
settle ProofState.human_review_required w s e v =
    let waits : (w.status == WorkStepStatus.verifying) ≡ true = rw v refl in
    rw (waits, settle_step)
      (settle_moves w WorkStepStatus.failed ProofState.human_review_required s e (rw v refl) refl)

module _ (exit_text : Option ℤ → String) (lower : String → String) (env : GitEnv) where
  -- A step in `verifying` is left `review_ready` by a verified deliverable, `failed` by one whose
  -- verification failed or needs a human, and `verifying` by one without a verdict, whatever the
  -- finalization of its Request then does. No other step's status changes.
  pub advance_after_proof_exact :
      (d : Deliverable) (w : WorkStep) (s : Store) (k : ℕ)
      → d.work_step_id ≡ some w.id
      → get w.id s.steps ≡ some w
      → w.status ≡ WorkStepStatus.verifying
      → step_status_of k (advance_request_after_proof exit_text lower env d s).1.steps
        ≡ (if w.id == k then some (settled_status d.proof_state) else step_status_of k s.steps)
  unfolding advance_request_after_proof
  advance_after_proof_exact d w s k e0 e v =
      let (done, row) = settle d.proof_state w s e v in
      rw (e0, e, done, advance_request_after_proof)
        (ap (step_status_of k)
            (finalize_for_step-Keeps exit_text lower env w (settle_step d.proof_state w s).1).steps
          ∙ row k)
