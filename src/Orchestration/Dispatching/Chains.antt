-- ===== src/Orchestration/Dispatching/Chains.antt =====
-- core/orchestration.py: how the loop over a plan's steps leaves all of them.
use bsnexus.Domain.{
  WorkStepStatus, deliverable_status_eq, deliverable_type_eq, proof_aspect_status_eq,
  proof_aspect_type_eq, proof_state_eq, request_status_eq, run_attempt_phase_eq,
  run_attempt_status_eq, work_plan_status_eq, work_step_status_eq,
}
use bsnexus.Effects.{ok}
use bsnexus.Executor.Attempt.Branches.{is_startable}
use bsnexus.Executor.Attempt.Methods.{
  Before, IsAt, Leaves, before, leaves_map, leaves_then, posting,
}
use bsnexus.Executor.Attempt.Settles.{IsResult}
use bsnexus.Executor.Dispatch.{Executor, dispatch_run_attempt}
use bsnexus.Executor.Dispatch.Settles.{dispatch_settles, is_configured}
use bsnexus.Executor.Retry.{Env}
use bsnexus.Executor.World.{DispatchRunAttemptResult, World}
use bsnexus.Models.{Decision, Handoff, Request, WorkStep}
use bsnexus.Orchestration.Dispatching.{Position, dispatch_steps, read_result}
use bsnexus.Prelude.{
  All, Bool, List, Option, String, [], inl, inr, int_eq, length, nat_eq, none, option_eq, refl,
  some, string_eq, subst, sym, true, ℕ, ◌++◌, ◌+◌, ◌==◌, ◌||◌, ◌∙◌, ◌∷◌, ◌≡◌, ◌≢◌,
}
use bsnexus.Store.{
  decision_has_id, deliverable_has_id, get, project_has_id, request_has_id, run_attempt_has_id,
  work_step_has_id,
}

-- where the executor can leave a step
abbrev pub has_settled : WorkStepStatus → Bool
has_settled st =
    st == WorkStepStatus.verifying
    || st == WorkStepStatus.needs_decision
    || st == WorkStepStatus.failed

-- the row of the step has a status that passes the test
abbrev pub HasStatus : (WorkStepStatus → Bool) → List WorkStep → WorkStep → Type 0
HasStatus test rows step = (r : WorkStep) × (get step.id rows ≡ some r) × (test r.status ≡ true)

-- no two steps have the same id
abbrev pub Distinct : List WorkStep → Type 0
Distinct [] = Unit
Distinct (w ∷ ws) = All (λ v. w.id ≢ v.id) ws × Distinct ws

-- a step has settled, and the rows of others are as before
abbrev pub Turned : WorkStep → World → Option DispatchRunAttemptResult → World → Type 0
Turned step w o v =
    ((r : DispatchRunAttemptResult) × (o ≡ some r))
    × HasStatus has_settled (v.store).steps step
    × ((j : ℕ) → step.id ≢ j → get j (v.store).steps ≡ get j (w.store).steps)

module _ (env : Env) (tenant : ℕ) (request : Request) (step : WorkStep) where
  at_HasStatus :
      (test : WorkStepStatus → Bool) (st : WorkStepStatus) (q : Before) (ds : List Decision)
      (n m : ℕ) (v : World)
      → test st ≡ true
      → IsAt step.id st q ds n m v
      → HasStatus test (v.store).steps step
        × ((j : ℕ) → step.id ≢ j → get j (v.store).steps ≡ get j q.steps)
  at_HasStatus test st q ds n m v h at =
      let (r, found_row, same) = at.row in ((r, found_row, rw same h), at.others)

  settled_row :
      (q : Before) (ds : List Decision) (n m : ℕ) (r : DispatchRunAttemptResult) (v : World)
      → IsResult request.id step.id q ds n m r v
      → HasStatus has_settled (v.store).steps step
        × ((j : ℕ) → step.id ≢ j → get j (v.store).steps ≡ get j q.steps)
  settled_row q ds n m r v (over, unverified, inl (d, is, done, at)) =
      at_HasStatus has_settled WorkStepStatus.verifying (posting d.id q) ds n m v refl at
  settled_row q ds n m r v (over, unverified, inr (inl (d, open_, of, blocks, at))) =
      at_HasStatus has_settled WorkStepStatus.needs_decision q (ds ++ d ∷ []) n m v refl at
  settled_row q ds n m r v (over, unverified, inr (inr at)) =
      at_HasStatus has_settled WorkStepStatus.failed q ds n m v refl at

  -- one turn of the loop
  pub turn_leaves :
      (who : Executor) (seed : Option Handoff) (w : World)
      → env.publish ≡ ok tt
      → is_configured who ≡ true
      → HasStatus is_startable (w.store).steps step
      → Leaves (dispatch_run_attempt env tenant request step who seed w) (λ o v.
        ((r : DispatchRunAttemptResult) × (o ≡ some r))
        × HasStatus has_settled (v.store).steps step
        × ((j : ℕ) → step.id ≢ j → get j (v.store).steps ≡ get j (w.store).steps))
  turn_leaves who seed w published configured (row, found_row, startable) =
      leaves_map _ _ (dispatch_run_attempt env tenant request step who seed w)
        (dispatch_settles env tenant request step who seed w row published configured found_row
          startable)
        (λ o v (r, is, result).
          let (row_after, others) =
            settled_row (before w) (w.store).decisions (w.trips + 404)
              (length (w.store).attempts + 4) r v result in
          ((r, is), row_after, others))

-- the steps have settled, and rows of other ids are as before
abbrev pub Chained : List WorkStep → World → World → Type 0
Chained steps w v =
    All (HasStatus has_settled (v.store).steps) steps
    × ((j : ℕ) → All (λ s. s.id ≢ j) steps → get j (v.store).steps ≡ get j (w.store).steps)

moved_statuses :
    (test : WorkStepStatus → Bool) (k : ℕ) (old new : List WorkStep) (steps : List WorkStep)
    → ((j : ℕ) → k ≢ j → get j new ≡ get j old)
    → All (λ v. k ≢ v.id) steps
    → All (HasStatus test old) steps
    → All (HasStatus test new) steps
moved_statuses test k old new [] same apart h = tt
moved_statuses test k old new (s ∷ steps) same apart h =
    let (r, found_row, ok_status) = h.0 in
    (
      (r, same s.id (apart.0) ∙ found_row, ok_status),
      moved_statuses test k old new steps same (apart.1) (h.1),
    )

apart_sym : (k : ℕ) (steps : List WorkStep) → All (λ v. k ≢ v.id) steps → All (λ v. v.id ≢ k) steps
apart_sym k [] h = tt
apart_sym k (s ∷ steps) h = ((λ e. h.0 (sym e)), apart_sym k steps (h.1))

chain_on :
    (s : WorkStep) (steps : List WorkStep) (o : Option DispatchRunAttemptResult) (w v1 v2 : World)
    → All (λ v. s.id ≢ v.id) steps
    → Turned s w o v1
    → Chained steps v1 v2
    → Chained (s ∷ steps) w v2
chain_on s steps o w v1 v2 apart (result, (r, found_row, done), others) (rest, same) = (
  ((r, same s.id (apart_sym s.id steps apart) ∙ found_row, done), rest),
  λ j away. same j (away.1) ∙ others j (away.0),
)

module _ (env : Position → Env) (tenant : ℕ) (who : Executor) (request : Request) where
  -- The loop over a plan's steps goes on to the end whatever becomes of each step. For steps with
  -- distinct ids that may each run, an executor, and a queue that accepts every message, it returns,
  -- each of the steps is in `verifying`, `needs_decision` or `failed`, and the rows of all other
  -- steps are as before.
  pub dispatch_steps_settle :
      (steps : List WorkStep) (i total : ℕ) (names : List String) (w : World)
      → ((p : Position) → (env p).publish ≡ ok tt)
      → is_configured who ≡ true
      → Distinct steps
      → All (HasStatus is_startable (w.store).steps) steps
      → Leaves
          (dispatch_steps env tenant who request i total names steps w)
          (λ _ v. Chained steps w v)
  unfolding dispatch_steps
  dispatch_steps_settle [] i total names w published configured distinct may = (tt, λ j apart. refl)
  dispatch_steps_settle (s ∷ steps) i total names w published configured distinct may =
      let p : Position = record {
        step_index = some i;
        total_steps = some total;
        prior_step_names = names;
      } in
      leaves_then (Turned s w) (λ _ v. Chained (s ∷ steps) w v)
        (dispatch_run_attempt (env p) tenant request s who none w) _
        (turn_leaves (env p) tenant request s who none w (published p) configured (may.0))
        (λ o v1 t.
          leaves_then (λ _ v. v ≡ v1) (λ _ v. Chained (s ∷ steps) w v) (read_result o v1) _
            (rw (t.0.1) refl)
            (λ _ v e.
              subst
                (λ x.
                  Leaves
                    (dispatch_steps env tenant who request (i + 1) total
                      (names ++ s.draft.name ∷ []) steps x)
                    (λ _ z. Chained (s ∷ steps) w z))
                (sym e)
                (leaves_map (λ _ z. Chained steps v1 z) (λ _ z. Chained (s ∷ steps) w z)
                  (dispatch_steps env tenant who request (i + 1) total (names ++ s.draft.name ∷ [])
                    steps v1)
                  (dispatch_steps_settle steps (i + 1) total (names ++ s.draft.name ∷ []) v1
                    published configured (distinct.1)
                    (moved_statuses is_startable s.id (w.store).steps (v1.store).steps steps (t.2)
                      (distinct.0) (may.1)))
                  (λ _ z c. chain_on s steps o w v1 z (distinct.0) t c))))
