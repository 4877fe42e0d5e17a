-- ===== src/Orchestration/Sweep.antt =====
-- `reap_orphaned_run_attempts` of core/orchestration.py: no attempt is left running, and no step that
-- an orphaned attempt worked on.
use mathlib.Core.Option
use bsnexus.Domain.{
  RunAttemptStatus, WorkStepStatus, deliverable_status_eq, deliverable_type_eq,
  proof_aspect_status_eq, proof_aspect_type_eq, proof_state_eq, request_status_eq,
  run_attempt_phase_eq, run_attempt_status_eq, work_plan_status_eq, work_step_status_eq,
}
use bsnexus.Effects.{Result, ok}
use bsnexus.GitOps.Branch.{GitEnv}
use bsnexus.Models.{RunAttempt, WorkStep}
use bsnexus.Orchestration.Advance.{own_step, step_moves, step_status_of}
use bsnexus.Orchestration.Defs.{
  fail_step, is_at_work, reap_all, reap_attempt, reap_orphaned_run_attempts,
}
use bsnexus.Orchestration.Keeps.{finalize_for_step-Keeps}
use bsnexus.Prelude.{
  Bool, Bool-cases, List, Option, Option-cases, String, [], any, ap, arith, false, filter,
  if◌then◌else◌, inl, inr, int_eq, nat_eq, none, option_eq, refl, some, string_eq, strip, true, ℕ,
  ℤ, ◌==◌, ◌∙◌, ◌∷◌, ◌≡◌,
}
use bsnexus.RunAttempts.Defs.{closed, finish_run_attempt}
use bsnexus.StateMachines.{can_transition_work_step}
use bsnexus.Store.{
  Store, decision_has_id, deliverable_has_id, get, project_has_id, request_has_id,
  run_attempt_has_id, update, work_step_has_id,
}
use bsnexus.Store.Tables.{get-id, get-replace}
use bsnexus.WorkSteps.Steps.{transition_moves}

abbrev pub attempt_status_of : ℕ → List RunAttempt → Option RunAttemptStatus
attempt_status_of k rs = Option.map (λ a. a.status) (get k rs)

abbrev pub is_orphan : RunAttempt → Bool
is_orphan a = a.status == RunAttemptStatus.running

abbrev lost : ℕ → RunAttempt → RunAttempt
lost now a = closed now RunAttemptStatus.failed "process_lost" a

lost_lem :
    (now : ℕ) (a : RunAttempt)
    → (finish_run_attempt now RunAttemptStatus.failed "process_lost" a ≡ ok (lost now a))
      × ((lost now a).status ≡ RunAttemptStatus.failed)
      × ((lost now a).id ≡ a.id)
unfolding finish_run_attempt strip closed
lost_lem now a = (refl, refl, refl)

-- where the sweep leaves the step of an orphaned attempt
abbrev pub after_loss : WorkStepStatus → WorkStepStatus
after_loss st = if is_at_work st then WorkStepStatus.failed else st

at_work_can_fail :
    (st : WorkStepStatus)
    → is_at_work st ≡ true
    → can_transition_work_step st WorkStepStatus.failed ≡ true
unfolding can_transition_work_step
at_work_can_fail WorkStepStatus.pending h = cc
at_work_can_fail WorkStepStatus.running h = refl
at_work_can_fail WorkStepStatus.needs_decision h = cc
at_work_can_fail WorkStepStatus.verifying h = refl
at_work_can_fail WorkStepStatus.review_ready h = cc
at_work_can_fail WorkStepStatus.failed h = cc
at_work_can_fail WorkStepStatus.skipped h = cc

-- what `fail_step` leaves
record Fails (w : WorkStep) (s : Store) (r : Result (Unit {0}) × Store) : Type 0 where
  done : r.0 ≡ ok tt
  attempts : r.1.attempts ≡ s.attempts
  steps :
      (k : ℕ)
      → step_status_of k r.1.steps
        ≡ (if w.id == k then some (after_loss w.status) else step_status_of k s.steps)

fail_step_lem : (w : WorkStep) (s : Store) → get w.id s.steps ≡ some w → Fails w s (fail_step w s)
unfolding fail_step
fail_step_lem w s e = elim (Bool-cases (is_at_work w.status)) [
  | inl h ↦
      rw
        (
          h,
          fail_step,
          transition_moves w.id WorkStepStatus.failed s w e (at_work_can_fail w.status h),
        )
        (record {
          done = refl;
          attempts = refl;
          steps = λ k. step_moves w WorkStepStatus.failed s k e ∙ rw h refl;
        })
  | inr h ↦
      rw (h, fail_step)
        (record { done = refl; attempts = refl; steps = λ k. own_step w s k e ∙ rw h refl })
]

absent :
    (key k : ℕ) (ws : List WorkStep)
    → get key ws ≡ none
    → step_status_of k ws
      ≡ (if key == k then Option.map after_loss (step_status_of k ws) else step_status_of k ws)
absent key k ws e = elim (Bool-cases (key == k)) [
  | inl h ↦ rw (h, ← (nat_eq.beq_iff key k).0 h, e) refl
  | inr h ↦ rw h refl
]

present :
    (key k : ℕ) (ws : List WorkStep) (w : WorkStep)
    → get key ws ≡ some w
    → (if w.id == k then some (after_loss w.status) else step_status_of k ws)
      ≡ (if key == k then Option.map after_loss (step_status_of k ws) else step_status_of k ws)
present key k ws w e = rw (get-id key ws w e) (elim (Bool-cases (key == k)) [
  | inl h ↦ rw (h, ← (nat_eq.beq_iff key k).0 h, e) refl
  | inr h ↦ rw h refl
])

module _ (exit_text : Option ℤ → String) (lower : String → String) (env : GitEnv) where
  -- what one turn of the sweep does to the attempts and the steps
  record Turned (a : RunAttempt) (s t : Store) : Type 0 where
    attempts : t.attempts ≡ update a.id (λ _. lost s.now a) s.attempts
    steps :
        (k : ℕ)
        → step_status_of k t.steps ≡ (
            if a.work_step_id == k
            then Option.map after_loss (step_status_of k s.steps)
            else step_status_of k s.steps)

  turn : (a : RunAttempt) (s : Store) → Turned a s (reap_attempt exit_text lower env a s).1
  unfolding reap_attempt
  turn a s =
      let s' = record s { attempts = update a.id (λ _. lost s.now a) s.attempts } in
      elim (Option-cases (get a.work_step_id s.steps)) [
        | inl e ↦
            rw ((lost_lem s.now a).0, e, reap_attempt)
              (record { attempts = refl; steps = λ k. absent a.work_step_id k s.steps e })
        | inr (w, e) ↦
            let fails =
              fail_step_lem w s'
                (ap (λ j. get j s.steps) (get-id a.work_step_id s.steps w e) ∙ e) in
            let kept = finalize_for_step-Keeps exit_text lower env w (fail_step w s').1 in
            rw ((lost_lem s.now a).0, e, fails.done, reap_attempt)
              (record {
                attempts = kept.attempts ∙ fails.attempts;
                steps = λ k.
                    ap (step_status_of k) kept.steps
                    ∙ fails.steps k
                    ∙ present a.work_step_id k s.steps w e;
              })
      ]

  attempt_turn :
      (a : RunAttempt) (s t : Store) (k : ℕ)
      → Turned a s t
      → attempt_status_of k t.attempts ≡ (
          if a.id == k
          then Option.map (λ _. RunAttemptStatus.failed) (attempt_status_of k s.attempts)
          else attempt_status_of k s.attempts)
  attempt_turn a s t k turned =
      let facts = lost_lem s.now a in
      rw (turned.attempts, get-replace a.id k (lost s.now a) s.attempts facts.2)
        (row (a.id == k) (get k s.attempts) facts.1)
    where
      row :
          (b : Bool) (o : Option RunAttempt)
          → (lost s.now a).status ≡ RunAttemptStatus.failed
          → Option.map
              (λ (r : RunAttempt). r.status)
              (if b then Option.map (λ _. lost s.now a) o else o)
            ≡ (if b
                then Option.map
                    (λ _. RunAttemptStatus.failed)
                    (Option.map (λ (r : RunAttempt). r.status) o)
                else Option.map (λ (r : RunAttempt). r.status) o)
      row true none h = refl
      row true (some r) h = rw h refl
      row false o h = refl

  reap_all_lem :
      (orphaned : List RunAttempt) (s : Store) (k : ℕ)
      → let t = (reap_all exit_text lower env orphaned s).1 in
        (attempt_status_of k t.attempts ≡ (
          if any (λ a. a.id == k) orphaned
          then Option.map (λ _. RunAttemptStatus.failed) (attempt_status_of k s.attempts)
          else attempt_status_of k s.attempts))
        × (step_status_of k t.steps ≡ (
            if any (λ a. a.work_step_id == k) orphaned
            then Option.map after_loss (step_status_of k s.steps)
            else step_status_of k s.steps))
  unfolding reap_all
  reap_all_lem [] s k = (refl, refl)
  reap_all_lem (a ∷ orphaned) s k =
      let s1 = (reap_attempt exit_text lower env a s).1 in
      let turned = turn a s in
      let rest = reap_all_lem orphaned s1 k in
      (
        rest.0 ∙ rw (attempt_turn a s s1 k turned) (ground arith),
        rest.1 ∙ rw (turned.steps k) (ground arith),
      )

found_orphan :
    (k : ℕ) (rs : List RunAttempt)
    → (attempt_status_of k rs == some RunAttemptStatus.running) ≡ true
    → any (λ a. a.id == k) (filter is_orphan rs) ≡ true
unfolding get
found_orphan k [] h = cc
found_orphan k (r ∷ rs) h = ground (arith, found_orphan k rs)

module _ (exit_text : Option ℤ → String) (lower : String → String) (env : GitEnv) where
  -- After the sweep no attempt is running: each that was is `failed`, and so is the step it worked on
  -- if that was running or verifying. No other attempt's or step's status changes. This holds
  -- whatever the finalizations of the Requests do, exceptions included.
  pub sweep_exact :
      (s : Store) (k : ℕ)
      → let orphans = filter is_orphan s.attempts in
        let t = (reap_orphaned_run_attempts exit_text lower env s).1 in
        ((attempt_status_of k t.attempts == some RunAttemptStatus.running) ≡ false)
        × (attempt_status_of k t.attempts ≡ (
            if any (λ a. a.id == k) orphans
            then Option.map (λ _. RunAttemptStatus.failed) (attempt_status_of k s.attempts)
            else attempt_status_of k s.attempts))
        × (step_status_of k t.steps ≡ (
            if any (λ a. a.work_step_id == k) orphans
            then Option.map after_loss (step_status_of k s.steps)
            else step_status_of k s.steps))
  unfolding reap_orphaned_run_attempts
  sweep_exact s k =
      let swept = reap_all_lem exit_text lower env (filter is_orphan s.attempts) s k in
      (
        rw swept.0 (
            ended (attempt_status_of k s.attempts)
              (any (λ a. a.id == k) (filter is_orphan s.attempts)) (found_orphan k s.attempts)),
        swept.0,
        swept.1,
      )
    where
      ended :
          (o : Option RunAttemptStatus) (b : Bool)
          → ((o == some RunAttemptStatus.running) ≡ true → b ≡ true)
          → ((if b then Option.map (λ _. RunAttemptStatus.failed) o else o)
              == some RunAttemptStatus.running)
            ≡ false
      ended none true h = refl
      ended none false h = refl
      ended (some st) true h = refl
      ended (some st) false h = ground (arith, h)
