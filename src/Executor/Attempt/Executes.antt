-- ===== src/Executor/Attempt/Executes.antt =====
-- `_execute_one_attempt` of core/run_attempt_executor.py as a whole.
-- the row is the object's, but for its contract
use bsnexus.Domain.{RunAttemptPhase, WorkStepStatus}
use bsnexus.Effects.{ok}
use bsnexus.Executor.Attempt.{add_attempt, conclude_attempt, execute_one_attempt, starting}
use bsnexus.Executor.Attempt.Branches.{
  Added, add_leaves, conclude_leaves, is_startable, set_running_leaves, to_work,
}
use bsnexus.Executor.Attempt.Methods.{Before, IsAt, IsAt_up, Leaves, advance_leaves, leaves_then}
use bsnexus.Executor.Attempt.Outcomes.{OutcomeFor}
use bsnexus.Executor.Retry.{Env, work_and_retry}
use bsnexus.Executor.Retry.Life.{work_and_retry-EndsWell}
use bsnexus.Executor.Work.Turns.{EndsWell-up, IsAlive}
use bsnexus.Executor.World.{World}
use bsnexus.Models.{Decision, Handoff, Request, RunAttempt, WorkStep}
use bsnexus.Prelude.{Bool, List, Option, String, arith, subst, sym, true, ℕ, ◌+◌, ◌≡◌}

module _ (env : Env) (tenant : ℕ) (request : Request) (step : WorkStep) (q : Before)
    (ds : List Decision) (n m : ℕ) where
  abbrev At : ℕ → WorkStepStatus → World → Type 0
  At tries st v = IsAt step.id st q ds n tries v

  -- from the work on
  worked_leaves :
      (seed : Option Handoff) (can_continue : Bool) (a : RunAttempt) (w : World)
      → env.publish ≡ ok tt
      → IsAlive a
      → At (m + 1) WorkStepStatus.running w
      → Leaves
          (conclude_attempt env tenant request step can_continue
            (w.store).now
            (work_and_retry env (w.store).now (starting env tenant request step seed a w))
            w)
          (OutcomeFor env tenant request step q ds (n + 101) (m + 1) can_continue)
  worked_leaves seed can_continue a w published alive at =
      let start = starting env tenant request step seed a w in
      let ends = work_and_retry-EndsWell env (w.store).now start alive in
      let sum : n + 100 + 1 ≡ n + 101 = omega arith in
      subst
        (λ (i : ℕ).
          Leaves
            (conclude_attempt env tenant request step can_continue (w.store).now
              (work_and_retry env (w.store).now start) w)
            (OutcomeFor env tenant request step q ds i (m + 1) can_continue))
        sum
        (conclude_leaves env tenant request step q ds (n + 100) (m + 1) can_continue (w.store).now
          (work_and_retry env (w.store).now start) w published
          (EndsWell-up (w.trips + 100) (n + 100) (omega (arith, at.called))
            (work_and_retry env (w.store).now start) ends)
          (IsAt_up step.id WorkStepStatus.running q ds n (n + 100) (m + 1) (m + 1) w (omega arith)
            (omega arith) at))

  -- A step that may run settles or is handed over; an attempt adds one row and calls the LLM at most
  -- 101 times.
  pub execute_leaves :
      (kind : String) (model : Option String) (seed : Option Handoff) (can_continue : Bool)
      (st : WorkStepStatus) (w : World)
      → env.publish ≡ ok tt
      → is_startable st ≡ true
      → At m st w
      → Leaves
          (execute_one_attempt env tenant request step kind model seed can_continue w)
          (OutcomeFor env tenant request step q ds (n + 101) (m + 1) can_continue)
  unfolding execute_one_attempt
  execute_leaves kind model seed can_continue st w published startable at =
      let running = WorkStepStatus.running in
      let Q = OutcomeFor env tenant request step q ds (n + 101) (m + 1) can_continue in
      let (b, to_b, alive) = to_work (w.store).next_id (w.store).now step.id kind model in
      leaves_then (Added env tenant request step q ds n m kind model st w) Q
        (add_attempt env tenant request step kind model w) _
        (add_leaves env tenant request step q ds n m kind model st w at)
        (λ a w1 p1.
          leaves_then (λ _ v. At (m + 1) running v) Q _ _
            (set_running_leaves env tenant request step q ds n (m + 1) st w1 startable (p1.1))
            (λ _ w2 p2.
              leaves_then (λ c v. (c ≡ b) × At (m + 1) running v) Q _ _
                (advance_leaves step.id running q ds n (m + 1) w2 p2 RunAttemptPhase.work a b
                  (rw (p1.0) to_b))
                (λ c w3 p3.
                  worked_leaves seed can_continue c w3 published (subst IsAlive (sym (p3.0)) alive)
                    (p3.1))))
