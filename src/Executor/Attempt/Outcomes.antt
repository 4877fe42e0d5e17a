-- ===== src/Executor/Attempt/Outcomes.antt =====
-- The outcome of `_execute_one_attempt` of core/run_attempt_executor.py, on every branch.
use bsnexus.Domain.{RunAttemptStatus, WorkStepStatus}
use bsnexus.Effects.{Error}
use bsnexus.Executor.Attempt.{after_crash, ask_founder, fail_terminated, finish_leaked}
use bsnexus.Executor.Attempt.Methods.{
  Before, IsAt, Leaves, finish_leaves, leaves_then, transition_leaves,
}
use bsnexus.Executor.Attempt.Settles.{Finished, IsOutcome, Partial, not_running, surface_leaves}
use bsnexus.Executor.Defs.{Phase, class_name}
use bsnexus.Executor.Retry.{Env}
use bsnexus.Executor.Work.Turns.{is_over}
use bsnexus.Executor.World.{AttemptOutcome, World, on_store}
use bsnexus.Models.{Decision, Request, RunAttempt, WorkStep}
use bsnexus.Orchestration.Defs.{create_blocking_decision, is_open_for}
use bsnexus.Prelude.{
  Bool, List, String, [], arith, false, inl, inr, is_empty, join_text, none, refl, some, strip,
  true, ℕ, ◌++◌, ◌∷◌, ◌≡◌,
}
use bsnexus.StateMachines.{can_transition_work_step}

executor_error_not_blank :
    (name : String) → is_empty (strip (join_text "executor_error:" name)) ≡ false
unfolding strip join_text
executor_error_not_blank name = refl

module _ (env : Env) (tenant : ℕ) (request : Request) (step : WorkStep) (q : Before)
    (ds : List Decision) (n m : ℕ) where
  abbrev pub OutcomeFor : Bool → AttemptOutcome → World → Type 0
  OutcomeFor can_continue = IsOutcome can_continue request.id step.id q ds n m

  abbrev Over : RunAttempt → World → Type 0
  Over a v = (is_over a ≡ true) × IsAt step.id WorkStepStatus.failed q ds n m v

  abbrev Asked : Decision → World → Type 0
  Asked d v =
      (is_open_for request.id d ≡ true)
      × (d.work_step_id ≡ some step.id)
      × (d.blocking ≡ true)
      × IsAt step.id WorkStepStatus.needs_decision q (ds ++ d ∷ []) n m v

  raise_leaves :
      (reason : String) (w : World)
      → IsAt step.id WorkStepStatus.needs_decision q ds n m w
      → Leaves (on_store (create_blocking_decision request (some step) reason none) w) Asked
  unfolding create_blocking_decision
  raise_leaves reason w at = (
    ground arith,
    refl,
    refl,
    record {
      row = at.row;
      others = at.others;
      posted = at.posted;
      asked = rw (at.asked) refl;
      called = at.called;
      tried = at.tried;
    },
  )

  pub ask_founder_leaves :
      (can_continue : Bool) (reason : String) (ph : Phase) (w : World)
      → is_over ph.session.attempt ≡ true
      → IsAt step.id WorkStepStatus.running q ds n m w
      → Leaves (ask_founder env tenant request step reason ph w) (OutcomeFor can_continue)
  unfolding ask_founder can_transition_work_step
  ask_founder_leaves can_continue reason ph w over at =
      let k = step.id in
      let parked = WorkStepStatus.needs_decision in
      leaves_then (λ _ v. IsAt k parked q ds n m v) (OutcomeFor can_continue) _ _
        (transition_leaves k WorkStepStatus.running q ds n m w at parked refl)
        (λ _ w1 p1.
          leaves_then Asked (OutcomeFor can_continue) _ _ (raise_leaves reason w1 p1) (λ d w2 p2.
            leaves_then (Partial env tenant request step q (ds ++ d ∷ []) n m parked)
              (OutcomeFor can_continue) _ _
              (surface_leaves env tenant request step q (ds ++ d ∷ []) n m parked ph w2 (p2.3))
              (λ o w3 p3. (over, p3.0, inr (inl (d, p2.0, p2.1, p2.2, p3.1))))))

  finish_leaked_leaves :
      (now : ℕ) (reason : String) (a : RunAttempt) (w : World)
      → is_over a ≡ true
      → IsAt step.id WorkStepStatus.failed q ds n m w
      → Leaves (finish_leaked env tenant request step now reason a w) Over
  unfolding finish_leaked
  finish_leaked_leaves now reason a w over at = rw (not_running a over, finish_leaked) (over, at)

  pub fail_terminated_leaves :
      (can_continue : Bool) (now : ℕ) (reason : String) (ph : Phase) (w : World)
      → is_over ph.session.attempt ≡ true
      → IsAt step.id WorkStepStatus.running q ds n m w
      → Leaves (fail_terminated env tenant request step now reason ph w) (OutcomeFor can_continue)
  unfolding fail_terminated can_transition_work_step
  fail_terminated_leaves can_continue now reason ph w over at =
      let k = step.id in
      let failed = WorkStepStatus.failed in
      leaves_then (λ _ v. IsAt k failed q ds n m v) (OutcomeFor can_continue) _ _
        (transition_leaves k WorkStepStatus.running q ds n m w at failed refl)
        (λ _ w1 p1.
          leaves_then Over (OutcomeFor can_continue) _ _
            (finish_leaked_leaves now reason ph.session.attempt w1 over p1)
            (λ a w2 p2.
              leaves_then (Partial env tenant request step q ds n m failed)
                (OutcomeFor can_continue) _ _
                (surface_leaves env tenant request step q ds n m failed ph w2 (p2.1))
                (λ o w3 p3. (p2.0, p3.0, inr (inr (p3.1))))))

  pub after_crash_leaves :
      (can_continue : Bool) (now : ℕ) (e : Error) (ph : Phase) (w : World)
      → IsAt step.id WorkStepStatus.running q ds n m w
      → Leaves (after_crash env tenant request step now e ph w) (OutcomeFor can_continue)
  unfolding after_crash can_transition_work_step
  after_crash_leaves can_continue now e ph w at =
      let k = step.id in
      let running = WorkStepStatus.running in
      leaves_then (Finished env tenant request step q ds n m RunAttemptStatus.failed running)
        (OutcomeFor can_continue) _ _
        (finish_leaves k running q ds n m w at now RunAttemptStatus.failed
          (join_text "executor_error:" (class_name e)) ph.session.attempt
          (executor_error_not_blank (class_name e)) (ground arith))
        (λ a w1 p1.
          leaves_then (λ _ v. IsAt k WorkStepStatus.failed q ds n m v) (OutcomeFor can_continue) _ _
            (transition_leaves k running q ds n m w1 (p1.1) WorkStepStatus.failed refl)
            (λ _ w2 p2. (ground (arith, p1.0), refl, inr (inr p2))))
