-- ===== src/Executor/Attempt/Settles.antt =====
-- How `_execute_one_attempt` of core/run_attempt_executor.py leaves its step, its attempt and the queue.
use bsnexus.Domain.{
  ProofState, RunAttemptPhase, RunAttemptStatus, WorkStepStatus, deliverable_status_eq,
  deliverable_type_eq, proof_aspect_status_eq, proof_aspect_type_eq, proof_state_eq,
  request_status_eq, run_attempt_phase_eq, run_attempt_status_eq, work_plan_status_eq,
  work_step_status_eq,
}
use bsnexus.Effects.{Exec, Result-cases, lift, modify, ok, pure, ◌>>◌}
use bsnexus.Executor.Attempt.{
  natural_exit, output_draft, surface_partial_deliverable, verify_partial,
}
use bsnexus.Executor.Attempt.Methods.{
  Before, IsAt, Leaves, advance_leaves, create_leaves, finish_leaves, leaves_then, posting,
  transition_leaves,
}
use bsnexus.Executor.Defs.{Phase}
use bsnexus.Executor.Retry.{Env, or_null}
use bsnexus.Executor.Work.Turns.{IsAlive, is_over}
use bsnexus.Executor.World.{
  AttemptOutcome, DispatchRunAttemptResult, World, concludes, demoted, hands_over, summarized,
}
use bsnexus.Models.{Decision, Deliverable, Request, RunAttempt, WorkStep}
use bsnexus.Orchestration.Defs.{is_open_for}
use bsnexus.Prelude.{
  Bool, Bool-cases, List, Option, [], arith, false, inl, inr, int_eq, length, nat_beq, nat_eq, none,
  not, option_eq, refl, some, string_eq, strip, true, ℕ, ◌++◌, ◌==◌, ◌∷◌, ◌≡◌, ◌⊎◌,
}
use bsnexus.RunAttempts.Defs.{advance_phase, is_running}
use bsnexus.StateMachines.{can_advance_run_attempt_phase, can_transition_work_step}
use bsnexus.Store.{
  decision_has_id, deliverable_has_id, project_has_id, request_has_id, run_attempt_has_id,
  work_step_has_id,
}
use bsnexus.Verification.Run.{run_verification}
use bsnexus.WorkSteps.Defs.{is_verified}

-- what a partial deliverable may claim
abbrev pub is_unverified : Option Deliverable → Bool
is_unverified none = true
is_unverified (some d) = not (is_verified d)

-- the three ways in which a step settles: it goes to the verifier with a Deliverable on the queue, it
-- waits for the founder with an open blocking Decision, or it has failed
abbrev pub IsSettled :
    ℕ → ℕ → Before → List Decision → ℕ → ℕ → DispatchRunAttemptResult → World → Type 0
IsSettled request k q ds n m r v =
    ((d : Deliverable) × (r.deliverable ≡ some d)
      × (r.attempt.status ≡ RunAttemptStatus.completed)
      × IsAt k WorkStepStatus.verifying (posting d.id q) ds n m v)
    ⊎ ((d : Decision) × (is_open_for request d ≡ true)
        × (d.work_step_id ≡ some k)
        × (d.blocking ≡ true)
        × IsAt k WorkStepStatus.needs_decision q (ds ++ d ∷ []) n m v)
    ⊎ IsAt k WorkStepStatus.failed q ds n m v

abbrev pub IsResult :
    ℕ → ℕ → Before → List Decision → ℕ → ℕ → DispatchRunAttemptResult → World → Type 0
IsResult request k q ds n m r v =
    (is_over r.attempt ≡ true)
    × (is_unverified r.deliverable ≡ true)
    × IsSettled request k q ds n m r v

-- a handoff is for a continuation alone, and leaves the step running
abbrev pub IsOutcome :
    Bool → ℕ → ℕ → Before → List Decision → ℕ → ℕ → AttemptOutcome → World → Type 0
IsOutcome can_continue request k q ds n m (hands_over h) v =
    (can_continue ≡ true) × IsAt k WorkStepStatus.running q ds n m v
IsOutcome can_continue request k q ds n m (concludes r) v = IsResult request k q ds n m r v

demoted_unverified : (d : Deliverable) → is_unverified (some (demoted d)) ≡ true
demoted_unverified d = ground arith

to_verify :
    (a : RunAttempt)
    → IsAlive a
    → advance_phase RunAttemptPhase.verify a ≡ ok (record a { phase = RunAttemptPhase.verify })
unfolding advance_phase is_running can_advance_run_attempt_phase
to_verify a alive = rw (alive.runs, alive.works) refl

to_summarize :
    (a : RunAttempt)
    → IsAlive a
    → advance_phase RunAttemptPhase.summarize (record a { phase = RunAttemptPhase.verify })
      ≡ ok (record a { phase = RunAttemptPhase.summarize })
unfolding advance_phase is_running can_advance_run_attempt_phase
to_summarize a alive = rw (alive.runs) refl

pub not_running :
    (a : RunAttempt) → is_over a ≡ true → (a.status == RunAttemptStatus.running) ≡ false
not_running a h = ground (arith, h)

module _ (env : Env) (tenant : ℕ) (request : Request) (step : WorkStep) (q : Before)
    (ds : List Decision) (n m : ℕ) where
  -- what the methods of an attempt return, and where they leave the step
  abbrev pub Partial : WorkStepStatus → Option Deliverable → World → Type 0
  Partial st o v = (is_unverified o ≡ true) × IsAt step.id st q ds n m v

  abbrev Fresh : WorkStepStatus → Deliverable → World → Type 0
  Fresh st d v = (d.proof_state ≡ ProofState.verification_missing) × IsAt step.id st q ds n m v

  verify_partial_leaves :
      (st : WorkStepStatus) (ph : Phase) (d : Deliverable) (w : World)
      → IsAt step.id st q ds n m w
      → Leaves (verify_partial env tenant request step ph d w) (Partial st)
  unfolding verify_partial
  verify_partial_leaves st ph d w at =
      let machine = env.machine ph.trips in
      let raw = or_null ph.session.attempt.verification_contract in
      elim (Result-cases (
        run_verification env.lower env.str_of machine.venv_host machine.hosts (w.store).next_id
          machine.heuristic raw d)) [
            | inl (v, e) ↦
                rw (e, verify_partial)
                  (
                    demoted_unverified v.deliverable,
                    record {
                      row = at.row;
                      others = at.others;
                      posted = at.posted;
                      asked = at.asked;
                      called = at.called;
                      tried = at.tried;
                    },
                  )
            | inr (x, e) ↦
                rw (e, verify_partial)
                  (
                    refl,
                    record {
                      row = at.row;
                      others = at.others;
                      posted = at.posted;
                      asked = at.asked;
                      called = at.called;
                      tried = at.tried;
                    },
                  )
          ]

  pub surface_leaves :
      (st : WorkStepStatus) (ph : Phase) (w : World)
      → IsAt step.id st q ds n m w
      → Leaves (surface_partial_deliverable env tenant request step ph w) (Partial st)
  unfolding surface_partial_deliverable
  surface_leaves st ph w at = elim (Bool-cases (nat_beq (length ph.written) 0)) [
    | inl e ↦ rw (e, surface_partial_deliverable) (refl, at)
    | inr e ↦
        rw (e, surface_partial_deliverable)
          (leaves_then (Fresh st) (Partial st) _ _
            (create_leaves step.id st q ds n m w at tenant
              (output_draft env tenant request step ph))
            (λ d v p. verify_partial_leaves st ph d v (p.1)))
  ]

  abbrev Natural : Bool → AttemptOutcome → World → Type 0
  Natural can_continue = IsOutcome can_continue request.id step.id q ds n m

  abbrev post : Env → RunAttempt → Deliverable → Exec World AttemptOutcome
  post env c d = do
    lift (env.publish)
    modify (λ w. record w { queue = w.queue ++ d.id ∷ [] })
    pure (concludes (record { attempt = c; deliverable = some d; terminal_reason = "summarized" }))

  abbrev Advanced : RunAttempt → RunAttempt → World → Type 0
  Advanced b c v = (c ≡ b) × IsAt step.id WorkStepStatus.running q ds n m v

  abbrev pub Finished : RunAttemptStatus → WorkStepStatus → RunAttempt → World → Type 0
  Finished status st c v = (c.status ≡ status) × IsAt step.id st q ds n m v

  -- from the Deliverable to the queue
  post_leaves :
      (can_continue : Bool) (c : RunAttempt) (d : Deliverable) (w : World)
      → env.publish ≡ ok tt
      → c.status ≡ RunAttemptStatus.completed
      → d.proof_state ≡ ProofState.verification_missing
      → IsAt step.id WorkStepStatus.verifying q ds n m w
      → Leaves (post env c d w) (Natural can_continue)
  post_leaves can_continue c d w published completed fresh at = rw published (
    ground (arith, completed),
    ground (arith, fresh),
    inl (
      d,
      refl,
      completed,
      record {
        row = at.row;
        others = at.others;
        posted = rw (at.posted) refl;
        asked = at.asked;
        called = at.called;
        tried = at.tried;
      },
    ),
  )

  pub exit_leaves :
      (can_continue : Bool) (now : ℕ) (ph : Phase) (w : World)
      → env.publish ≡ ok tt
      → IsAlive ph.session.attempt
      → IsAt step.id WorkStepStatus.running q ds n m w
      → Leaves (natural_exit env tenant request step now ph w) (Natural can_continue)
  unfolding natural_exit can_transition_work_step strip
  exit_leaves can_continue now ph w published alive at =
      let a = ph.session.attempt in
      let a1 = record a { phase = RunAttemptPhase.verify } in
      let a2 = record a { phase = RunAttemptPhase.summarize } in
      let k = step.id in
      let running = WorkStepStatus.running in
      leaves_then (Advanced a1) (Natural can_continue) _ _
        (advance_leaves k running q ds n m w at RunAttemptPhase.verify a a1 (to_verify a alive))
        (λ x1 w1 p1.
          leaves_then (Advanced a2) (Natural can_continue) _ _
            (advance_leaves k running q ds n m w1 (p1.1) RunAttemptPhase.summarize x1 a2
              (rw (p1.0) (to_summarize a alive)))
            (λ x2 w2 p2.
              leaves_then (Finished RunAttemptStatus.completed running) (Natural can_continue) _ _
                (finish_leaves k running q ds n m w2 (p2.1) now RunAttemptStatus.completed
                  "summarized" (summarized env.sort_names ph.final_text x2) refl (ground arith))
                (λ c w3 p3.
                  leaves_then (Fresh running) (Natural can_continue) _ _
                    (create_leaves k running q ds n m w3 (p3.1) tenant
                      (output_draft env tenant request step ph))
                    (λ d w4 p4.
                      leaves_then (λ _ v. IsAt k WorkStepStatus.verifying q ds n m v)
                        (Natural can_continue) _ _
                        (transition_leaves k running q ds n m w4 (p4.1) WorkStepStatus.verifying
                          refl)
                        (λ _ w5 p5. post_leaves can_continue c d w5 published (p3.0) (p4.0) p5)))))
