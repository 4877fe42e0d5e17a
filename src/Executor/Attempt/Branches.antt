-- ===== src/Executor/Attempt/Branches.antt =====
-- The parts of `_execute_one_attempt` of core/run_attempt_executor.py around the work: its start and
-- the choice of its end.
-- the row is the object's, but for its contract
use bsnexus.Domain.{
  RunAttemptPhase, WorkStepStatus, deliverable_status_eq, deliverable_type_eq,
  proof_aspect_status_eq, proof_aspect_type_eq, proof_state_eq, request_status_eq,
  run_attempt_phase_eq, run_attempt_status_eq, work_plan_status_eq, work_step_status_eq,
}
use bsnexus.Effects.{ok}
use bsnexus.Executor.Attempt.{
  add_attempt, after_termination, conclude_attempt, hand_over, set_running,
}
use bsnexus.Executor.Attempt.Methods.{Before, IsAt, IsAt_up, Leaves, synced_at, transition_leaves}
use bsnexus.Executor.Attempt.Outcomes.{
  OutcomeFor, after_crash_leaves, ask_founder_leaves, fail_terminated_leaves,
}
use bsnexus.Executor.Attempt.Settles.{exit_leaves}
use bsnexus.Executor.Defs.{Phase, WorkEnd, crashed, is_budget_termination, settled, terminated}
use bsnexus.Executor.Handoff.{generate_handoff_record}
use bsnexus.Executor.Retry.{Env}
use bsnexus.Executor.Work.Turns.{EndsWell, IsAlive, is_over}
use bsnexus.Executor.World.{World, capture_verification_contract, on_store, synced, with_handoff}
use bsnexus.Models.{Decision, Request, RunAttempt, WorkStep}
use bsnexus.Prelude.{
  Bool, Bool-cases, List, Option, String, [], arith, false, inl, inr, int_eq, length-append, nat_eq,
  option_eq, refl, string_eq, true, ℕ, ◌+◌, ◌==◌, ◌||◌, ◌∙◌, ◌∷◌, ◌≡◌, ◌≤◌,
}
use bsnexus.RunAttempts.Defs.{advance_phase, create_run_attempt, is_running}
use bsnexus.StateMachines.{can_advance_run_attempt_phase, can_transition_work_step}
use bsnexus.Store.{
  decision_has_id, deliverable_has_id, project_has_id, request_has_id, run_attempt_has_id,
  work_step_has_id,
}

captured_over :
    (ph : Phase)
    → is_over (capture_verification_contract ph).session.attempt ≡ is_over ph.session.attempt
unfolding capture_verification_contract
captured_over ph = ground arith

captured_trips : (ph : Phase) → (capture_verification_contract ph).trips ≡ ph.trips
unfolding capture_verification_contract
captured_trips ph = ground arith

captured-IsAlive :
    (ph : Phase)
    → IsAlive ph.session.attempt
    → IsAlive (capture_verification_contract ph).session.attempt
unfolding capture_verification_contract
captured-IsAlive ph alive = ground (arith, alive.runs, alive.works)

pub to_work :
    (i now k : ℕ) (kind : String) (model : Option String)
    → (b : RunAttempt) × (advance_phase RunAttemptPhase.work (create_run_attempt i now k kind model)
        ≡ ok b)
      × IsAlive b
unfolding advance_phase is_running can_advance_run_attempt_phase create_run_attempt
to_work i now k kind model = (_, refl, record { runs = refl; works = refl })

-- a step that may run, or runs already
abbrev pub is_startable : WorkStepStatus → Bool
is_startable st = st == WorkStepStatus.running || can_transition_work_step st WorkStepStatus.running

module _ (env : Env) (tenant : ℕ) (request : Request) (step : WorkStep) (q : Before)
    (ds : List Decision) (n m : ℕ) where
  hand_over_leaves :
      (ph : Phase) (w : World)
      → ph.trips ≤ n
      → IsAt step.id WorkStepStatus.running q ds n m w
      → Leaves
          (hand_over env tenant request step ph w)
          (OutcomeFor env tenant request step q ds (n + 1) m true)
  unfolding hand_over generate_handoff_record
  hand_over_leaves ph w h at =
      let made =
        generate_handoff_record env.lower env.str_of env.loads env.llm (env.request_text ph) ph in
      (
        refl,
        synced_at step.id WorkStepStatus.running q ds n m w at (with_handoff made) (n + 1)
            (omega (arith, h)),
      )

  pub later :
      (w : World)
      → IsAt step.id WorkStepStatus.running q ds n m w
      → IsAt step.id WorkStepStatus.running q ds (n + 1) m w
  later w at =
      IsAt_up step.id WorkStepStatus.running q ds n (n + 1) m m w (omega arith) (omega arith) at

  abbrev pub Added : String → Option String → WorkStepStatus → World → RunAttempt → World → Type 0
  Added kind model st w a v =
      (a ≡ create_run_attempt (w.store).next_id (w.store).now step.id kind model)
      × IsAt step.id st q ds n (m + 1) v

  after_termination_leaves :
      (can_continue : Bool) (now : ℕ) (reason : String) (ph : Phase) (w : World)
      → is_over ph.session.attempt ≡ true
      → ph.trips ≤ n
      → IsAt step.id WorkStepStatus.running q ds n m w
      → Leaves
          (after_termination env tenant request step can_continue now reason ph w)
          (OutcomeFor env tenant request step q ds (n + 1) m can_continue)
  unfolding after_termination
  after_termination_leaves true now reason ph w over h at =
      elim (Bool-cases (is_budget_termination reason)) [
        | inl b ↦ rw (b, after_termination) (hand_over_leaves ph w h at)
        | inr b ↦
            rw (b, after_termination)
              (fail_terminated_leaves env tenant request step q ds (n + 1) m true now reason ph w
                over (later w at))
      ]
  after_termination_leaves false now reason ph w over h at =
      elim (Bool-cases (is_budget_termination reason)) [
        | inl b ↦
            rw (b, after_termination)
              (ask_founder_leaves env tenant request step q ds (n + 1) m false reason ph w over
                (later w at))
        | inr b ↦
            rw (b, after_termination)
              (fail_terminated_leaves env tenant request step q ds (n + 1) m false now reason ph w
                over (later w at))
      ]

  pub conclude_leaves :
      (can_continue : Bool) (now : ℕ) (e : WorkEnd) (w : World)
      → env.publish ≡ ok tt
      → EndsWell n e
      → IsAt step.id WorkStepStatus.running q ds n m w
      → Leaves
          (conclude_attempt env tenant request step can_continue now e w)
          (OutcomeFor env tenant request step q ds (n + 1) m can_continue)
  unfolding conclude_attempt
  conclude_leaves can_continue now (settled ph) w published ends at =
      let captured = capture_verification_contract ph in
      exit_leaves env tenant request step q ds (n + 1) m can_continue now captured
        (synced captured w) published (captured-IsAlive ph (ends.0))
        (synced_at step.id WorkStepStatus.running q ds n m w at captured (n + 1)
          (omega (arith, captured_trips ph, ends.1)))
  conclude_leaves can_continue now (terminated reason ph) w published ends at =
      let captured = capture_verification_contract ph in
      let few : captured.trips ≤ n = omega (arith, captured_trips ph, ends.1) in
      after_termination_leaves can_continue now reason captured (synced captured w)
        (captured_over ph ∙ ends.0) few
        (synced_at step.id WorkStepStatus.running q ds n m w at captured n few)
  conclude_leaves can_continue now (crashed e ph) w published ends at =
      after_crash_leaves env tenant request step q ds (n + 1) m can_continue now e ph (synced ph w)
        (synced_at step.id WorkStepStatus.running q ds n m w at ph (n + 1) (omega (arith, ends)))

  pub add_leaves :
      (kind : String) (model : Option String) (st : WorkStepStatus) (w : World)
      → IsAt step.id st q ds n m w
      → Leaves (add_attempt env tenant request step kind model w) (Added kind model st w)
  unfolding add_attempt
  add_leaves kind model st w at = (
    refl,
    record {
      row = at.row;
      others = at.others;
      posted = at.posted;
      asked = at.asked;
      called = at.called;
      tried = omega (
        arith,
        length-append (w.store).attempts
            (create_run_attempt (w.store).next_id (w.store).now step.id kind model ∷ []),
        at.tried,
      );
    },
  )

  pub set_running_leaves :
      (st : WorkStepStatus) (w : World)
      → is_startable st ≡ true
      → IsAt step.id st q ds n m w
      → Leaves
          (on_store (set_running env tenant request step) w)
          (λ _ v. IsAt step.id WorkStepStatus.running q ds n m v)
  unfolding set_running
  set_running_leaves st w startable at =
      let (r, found_row, same) = at.row in
      elim (Bool-cases (st == WorkStepStatus.running)) [
        | inl e ↦ rw (found_row, set_running) (rw (same, e) (stays (is_it st e) at))
        | inr e ↦
            rw (found_row, set_running)
              (rw (same, e)
                (transition_leaves step.id st q ds n m w at WorkStepStatus.running
                  (ground (arith, startable, e))))
      ]
    where
      is_it :
          (a : WorkStepStatus) → (a == WorkStepStatus.running) ≡ true → a ≡ WorkStepStatus.running
      is_it a e = ground (arith, e)

      stays :
          st ≡ WorkStepStatus.running
          → IsAt step.id st q ds n m w
          → IsAt step.id WorkStepStatus.running q ds n m w
      stays e at = rw e at at
