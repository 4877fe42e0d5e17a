-- ===== src/Executor/Dispatch/Settles.antt =====
-- How `dispatch_run_attempt` of core/run_attempt_executor.py leaves the step that it is called for.
use bsnexus.Domain.{
  WorkStepStatus, deliverable_status_eq, deliverable_type_eq, proof_aspect_status_eq,
  proof_aspect_type_eq, proof_state_eq, request_status_eq, run_attempt_phase_eq,
  run_attempt_status_eq, work_plan_status_eq, work_step_status_eq,
}
use bsnexus.Effects.{Exec, Result, err, ok}
use bsnexus.Executor.Attempt.Branches.{is_startable}
use bsnexus.Executor.Attempt.Executes.{execute_leaves}
use bsnexus.Executor.Attempt.Methods.{Before, IsAt, IsAt_up, Leaves, before}
use bsnexus.Executor.Attempt.Outcomes.{OutcomeFor}
use bsnexus.Executor.Attempt.Settles.{IsResult}
use bsnexus.Executor.Dispatch.{
  Executor, after_attempt, continue_attempts, dispatch_run_attempt, injected, kind_or_injected,
  looked_up,
}
use bsnexus.Executor.Retry.{Env}
use bsnexus.Executor.World.{AttemptOutcome, DispatchRunAttemptResult, World, concludes, hands_over}
use bsnexus.Models.{Decision, Handoff, Request, WorkStep}
use bsnexus.Prelude.{
  Bool, List, Option, String, arith, false, inl, inr, int_eq, length, nat_eq, none, option_eq, refl,
  some, string_eq, suc, true, zero, ℕ, ◌*◌, ◌+◌, ◌≡◌, ◌≢◌, ◌≤◌,
}
use bsnexus.Store.{
  decision_has_id, deliverable_has_id, get, project_has_id, request_has_id, run_attempt_has_id,
  work_step_has_id,
}

false_ne_true : false ≢ true
false_ne_true e = cc

IsAt-IsResult :
    (request k : ℕ) (q : Before) (ds : List Decision) (n i m j : ℕ) (r : DispatchRunAttemptResult)
    (v : World)
    → n ≤ i
    → m ≤ j
    → IsResult request k q ds n m r v
    → IsResult request k q ds i j r v
IsAt-IsResult request k q ds n i m j r v h g (over, unverified, inl (d, is, done, at)) =
    (over, unverified, inl (d, is, done, IsAt_up k _ _ ds n i m j v h g at))
IsAt-IsResult request k q ds n i m j r v h g
      (over, unverified, inr (inl (d, open_, of, blocks, at))) =
    (over, unverified, inr (inl (d, open_, of, blocks, IsAt_up k _ q _ n i m j v h g at)))
IsAt-IsResult request k q ds n i m j r v h g (over, unverified, inr (inr at)) =
    (over, unverified, inr (inr (IsAt_up k _ q ds n i m j v h g at)))

-- an executor to run with
abbrev pub is_configured : Executor → Bool
is_configured (injected kind model) = true
is_configured (looked_up none resolves) = false
is_configured (looked_up (some c) resolves) = resolves

module _ (env : Env) (tenant : ℕ) (request : Request) (step : WorkStep) (q : Before)
    (ds : List Decision) where
  -- a result, and the bounds on the calls of the LLM and on the attempts
  abbrev pub Dispatched : ℕ → ℕ → Option DispatchRunAttemptResult → World → Type 0
  Dispatched n m o v =
      (r : DispatchRunAttemptResult) × (o ≡ some r) × IsResult request.id step.id q ds n m r v

  after_leaves :
      (can_continue : Bool) (n i m j : ℕ)
      (next : Handoff → Exec World (Option DispatchRunAttemptResult))
      (done : Result AttemptOutcome × World)
      → n ≤ i
      → m ≤ j
      → Leaves done (OutcomeFor env tenant request step q ds n m can_continue)
      → ((h : Handoff) (v : World)
          → can_continue ≡ true
          → IsAt step.id WorkStepStatus.running q ds n m v
          → Leaves (next h v) (Dispatched i j))
      → Leaves (after_attempt next done) (Dispatched i j)
  unfolding after_attempt
  after_leaves can_continue n i m j next (err e, v) h g p k = p
  after_leaves can_continue n i m j next (ok (hands_over x), v) h g p k = k x v (p.0) (p.1)
  after_leaves can_continue n i m j next (ok (concludes r), v) h g p k =
      (r, refl, IsAt-IsResult request.id step.id q ds n i m j r v h g p)

  continue_leaves :
      (left n i m j : ℕ) (kind : String) (model : Option String) (seed : Option Handoff)
      (st : WorkStepStatus) (w : World)
      → env.publish ≡ ok tt
      → is_startable st ≡ true
      → n + (left + 1) * 101 ≤ i
      → m + left + 1 ≤ j
      → IsAt step.id st q ds n m w
      → Leaves (continue_attempts env tenant request step left kind model seed w) (Dispatched i j)
  unfolding continue_attempts
  continue_leaves zero n i m j kind model seed st w published startable h g at =
      after_leaves false (n + 101) i (m + 1) j _ _ (omega (arith, h)) (omega (arith, g))
        (execute_leaves env tenant request step q ds n m kind model seed false st w published
          startable at)
        (λ x v never p. absurd (false_ne_true never))
  continue_leaves (suc left) n i m j kind model seed st w published startable h g at =
      after_leaves true (n + 101) i (m + 1) j _ _ (omega (arith, h)) (omega (arith, g))
        (execute_leaves env tenant request step q ds n m kind model seed true st w published
          startable at)
        (λ x v _ p.
          continue_leaves left (n + 101) i (m + 1) j kind model (some x) WorkStepStatus.running v
            published refl (omega (arith, h)) (omega (arith, g)) p)

module _ (env : Env) (tenant : ℕ) (request : Request) (step : WorkStep) where
  -- `dispatch_run_attempt` settles the step, whatever the LLM, its tools and the verifier do, the
  -- raises of each included. For a step in `pending`, `running`, `needs_decision` or `failed`, with an
  -- executor and a queue that accepts the message, it returns a result. The attempt of that result has ended
  -- and no Deliverable of it is `verified`. Either the attempt is `completed`, the step is `verifying`
  -- and the Deliverable's id, alone, is put on the queue; or the step is in `needs_decision` and one
  -- Decision is added, open, blocking and on this step; or the step is `failed`. In these two the queue
  -- is unchanged, and in all but the second the Decisions are. No other step changes. At most 4
  -- attempts are added, and the LLM is called at most 404 times, not counting the verifier's judge.
  pub dispatch_settles :
      (who : Executor) (seed : Option Handoff) (w : World) (row : WorkStep)
      → env.publish ≡ ok tt
      → is_configured who ≡ true
      → get step.id (w.store).steps ≡ some row
      → is_startable row.status ≡ true
      → Leaves (dispatch_run_attempt env tenant request step who seed w) (
          Dispatched env tenant request step
            (before w)
            (w.store).decisions
            (w.trips + 404)
            (length (w.store).attempts + 4))
  unfolding dispatch_run_attempt
  dispatch_settles who seed w row published configured found_row startable =
      by_executor who configured
    where
      at :
          IsAt step.id row.status
            (before w)
            (w.store).decisions
            w.trips
            (length (w.store).attempts)
            w
      at = record {
        row = (row, found_row, refl);
        others = λ j other. refl;
        posted = refl;
        asked = refl;
        called = omega arith;
        tried = omega arith;
      }

      continued :
          (kind : String) (model : Option String)
          → Leaves (continue_attempts env tenant request step 3 kind model seed w) (
              Dispatched env tenant request step
                (before w)
                (w.store).decisions
                (w.trips + 404)
                (length (w.store).attempts + 4))
      continued kind model =
          continue_leaves env tenant request step (before w) (w.store).decisions 3 w.trips
            (w.trips + 404) (length (w.store).attempts) (length (w.store).attempts + 4) kind model
            seed row.status w published startable (omega arith) (omega arith) at

      by_executor :
          (x : Executor)
          → is_configured x ≡ true
          → Leaves (dispatch_run_attempt env tenant request step x seed w) (
              Dispatched env tenant request step
                (before w)
                (w.store).decisions
                (w.trips + 404)
                (length (w.store).attempts + 4))
      by_executor (injected kind model) c = continued (kind_or_injected kind) model
      by_executor (looked_up none resolves) c = absurd (false_ne_true c)
      by_executor (looked_up (some (kind, model)) resolves) c = rw c (continued kind model)
