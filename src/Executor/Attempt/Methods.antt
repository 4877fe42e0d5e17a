-- ===== src/Executor/Attempt/Methods.antt =====
-- What the small methods of core/run_attempt_executor.py return and leave, to be put together.
use bsnexus.Domain.{
  ProofState, RunAttemptPhase, RunAttemptStatus, WorkStepStatus, deliverable_status_eq,
  deliverable_type_eq, proof_aspect_status_eq, proof_aspect_type_eq, proof_state_eq,
  request_status_eq, run_attempt_phase_eq, run_attempt_status_eq, work_plan_status_eq,
  work_step_status_eq,
}
use bsnexus.Effects.{Exec, Result, continue, err, ok}
use bsnexus.Executor.Defs.{Phase}
use bsnexus.Executor.World.{
  WorkOutputDraft, World, advance_attempt, create_deliverable_from_work_output, finish_attempt,
  on_store, put_attempt, synced,
}
use bsnexus.Models.{Decision, RunAttempt, WorkStep}
use bsnexus.Prelude.{
  List, String, [], arith, false, int_eq, is_empty, length, nat_eq, option_eq, refl, some,
  string_eq, strip, true, ℕ, ◌++◌, ◌∙◌, ◌∷◌, ◌≡◌, ◌≢◌, ◌≤◌,
}
use bsnexus.RunAttempts.Defs.{advance_phase, closed, finish_run_attempt}
use bsnexus.StateMachines.{can_transition_work_step}
use bsnexus.Store.{
  decision_has_id, deliverable_has_id, get, project_has_id, request_has_id, run_attempt_has_id,
  work_step_has_id,
}
use bsnexus.Store.Tables.{length-update}
use bsnexus.WorkSteps.Defs.{moved_step, transition_work_step}
use bsnexus.WorkSteps.Steps.{elsewhere_moved, moved_read, moved_status, transition_moves}

-- the method returns, and what it returns and leaves satisfies `P`
abbrev pub Leaves : {A : Type 0} → Result A × World → (A → World → Type 0) → Type 0
Leaves (ok a, v) P = P a v
Leaves (err e, v) P = ⊥

pub leaves_then :
    {A B : Type 0} (P : A → World → Type 0) (Q : B → World → Type 0) (m : Result A × World)
    (f : A → Exec World B)
    → Leaves m P
    → ((a : A) (v : World) → P a v → Leaves (f a v) Q)
    → Leaves (continue m.0 f m.1) Q
leaves_then P Q (ok a, v) f p k = k a v p
leaves_then P Q (err e, v) f p k = absurd p

-- what holds of the state after a method, whether or not the next one raises
pub leaves_state :
    {A B : Type 0} (P : A → World → Type 0) (Q : World → Type 0) (m : Result A × World)
    (f : A → Exec World B)
    → Leaves m P
    → ((a : A) (v : World) → P a v → Q (f a v).1)
    → Q (continue m.0 f m.1).1
leaves_state P Q (ok a, v) f p k = k a v p
leaves_state P Q (err e, v) f p k = absurd p

pub leaves_map :
    {A : Type 0} (P Q : A → World → Type 0) (m : Result A × World)
    → Leaves m P
    → ((a : A) (v : World) → P a v → Q a v)
    → Leaves m Q
leaves_map P Q (ok a, v) p k = k a v p
leaves_map P Q (err e, v) p k = absurd p

-- the queue and the steps before the call
pub record Before : Type 0 where
  pub queue : List ℕ
  pub steps : List WorkStep

abbrev pub before : World → Before
before w = record { queue = w.queue; steps = (w.store).steps }

abbrev pub posting : ℕ → Before → Before
posting i b = record b { queue = b.queue ++ i ∷ [] }

-- the status of the step `k`, the other steps, the queue, the Decisions, and bounds on the calls of the LLM and on
-- the attempts
pub record IsAt (k : ℕ) (st : WorkStepStatus) (before : Before) (decisions : List Decision)
    (calls tries : ℕ) (v : World) : Type 0 where
  pub row : (r : WorkStep) × (get k (v.store).steps ≡ some r) × (r.status ≡ st)
  pub others : (j : ℕ) → k ≢ j → get j (v.store).steps ≡ get j before.steps
  pub posted : v.queue ≡ before.queue
  pub asked : (v.store).decisions ≡ decisions
  pub called : v.trips ≤ calls
  pub tried : length (v.store).attempts ≤ tries

pub IsAt_up :
    (k : ℕ) (st : WorkStepStatus) (q : Before) (ds : List Decision) (m n i j : ℕ) (v : World)
    → m ≤ n
    → i ≤ j
    → IsAt k st q ds m i v
    → IsAt k st q ds n j v
IsAt_up k st q ds m n i j v h g at = record {
  row = at.row;
  others = at.others;
  posted = at.posted;
  asked = at.asked;
  called = omega (arith, h, at.called);
  tried = omega (arith, g, at.tried);
}

finish_closes :
    (now : ℕ) (status : RunAttemptStatus) (reason : String) (a : RunAttempt)
    → is_empty (strip reason) ≡ false
    → status ≢ RunAttemptStatus.running
    → finish_run_attempt now status reason a ≡ ok (closed now status reason a)
unfolding finish_run_attempt
finish_closes now status reason a filled ended = ground (arith, filled, ended)

closed_status :
    (now : ℕ) (status : RunAttemptStatus) (reason : String) (a : RunAttempt)
    → (closed now status reason a).status ≡ status
unfolding closed
closed_status now status reason a = refl

module _ (k : ℕ) (st : WorkStepStatus) (q : Before) (ds : List Decision) (n m : ℕ) (w : World)
    (at : IsAt k st q ds n m w) where
  put_at : (a : RunAttempt) → IsAt k st q ds n m (put_attempt a w).1
  unfolding put_attempt
  put_at a = record {
    row = at.row;
    others = at.others;
    posted = at.posted;
    asked = at.asked;
    called = at.called;
    tried = rw (length-update a.id (λ _. a) (w.store).attempts) (at.tried);
  }

  pub synced_at : (ph : Phase) (i : ℕ) → ph.trips ≤ i → IsAt k st q ds i m (synced ph w)
  synced_at ph i h = record {
    row = at.row;
    others = at.others;
    posted = at.posted;
    asked = at.asked;
    called = h;
    tried =
        rw (length-update ph.session.attempt.id (λ _. ph.session.attempt) (w.store).attempts)
          (at.tried);
  }

  pub advance_leaves :
      (target : RunAttemptPhase) (a b : RunAttempt)
      → advance_phase target a ≡ ok b
      → Leaves (advance_attempt target a w) (λ c v. (c ≡ b) × IsAt k st q ds n m v)
  unfolding put_attempt
  advance_leaves target a b e = rw e (refl, put_at b)

  pub finish_leaves :
      (now : ℕ) (status : RunAttemptStatus) (reason : String) (a : RunAttempt)
      → is_empty (strip reason) ≡ false
      → status ≢ RunAttemptStatus.running
      → Leaves
          (finish_attempt now status reason a w)
          (λ c v. (c.status ≡ status) × IsAt k st q ds n m v)
  unfolding put_attempt
  finish_leaves now status reason a filled ended =
      rw (finish_closes now status reason a filled ended)
        (closed_status now status reason a, put_at (closed now status reason a))

  pub transition_leaves :
      (target : WorkStepStatus)
      → can_transition_work_step st target ≡ true
      → Leaves (on_store (transition_work_step k target) w) (λ _ v. IsAt k target q ds n m v)
  transition_leaves target c =
      let (r, found_row, same) = at.row in
      let moves = transition_moves k target w.store r found_row (rw same c) in
      rw moves (record {
        row = (moved_step target r, moved_read k target w.store r found_row, moved_status target r);
        others = λ j other. elsewhere_moved k j target (w.store).steps other ∙ at.others j other;
        posted = at.posted;
        asked = at.asked;
        called = at.called;
        tried = at.tried;
      })

  pub create_leaves :
      (tenant : ℕ) (draft : WorkOutputDraft)
      → Leaves
          (on_store (create_deliverable_from_work_output tenant draft) w)
          (λ d v. (d.proof_state ≡ ProofState.verification_missing) × IsAt k st q ds n m v)
  unfolding create_deliverable_from_work_output
  create_leaves tenant draft = (
    refl,
    record {
      row = at.row;
      others = at.others;
      posted = at.posted;
      asked = at.asked;
      called = at.called;
      tried = at.tried;
    },
  )
