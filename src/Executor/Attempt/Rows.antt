-- ===== src/Executor/Attempt/Rows.antt =====
-- `_execute_one_attempt` of core/run_attempt_executor.py and the table of Requests.
use bsnexus.Domain.{
  RunAttemptPhase, RunAttemptStatus, WorkStepStatus, deliverable_status_eq, deliverable_type_eq,
  proof_aspect_status_eq, proof_aspect_type_eq, proof_state_eq, request_status_eq,
  run_attempt_phase_eq, run_attempt_status_eq, work_plan_status_eq, work_step_status_eq,
}
use bsnexus.Effects.{Error, Exec, Result, Result-cases, continue, err, ok}
use bsnexus.Executor.Attempt.{
  add_attempt, after_crash, after_termination, ask_founder, conclude_attempt, conclude_partial,
  execute_one_attempt, fail_terminated, finish_leaked, hand_over, natural_exit, output_draft,
  set_running, starting, surface_partial_deliverable, verify_partial,
}
use bsnexus.Executor.Defs.{
  Phase, WorkEnd, class_name, crashed, is_budget_termination, settled, terminated,
}
use bsnexus.Executor.Retry.{Env, or_null, work_and_retry}
use bsnexus.Executor.World.{
  WorkOutputDraft, World, advance_attempt, capture_verification_contract,
  create_deliverable_from_work_output, finish_attempt, on_store, put_attempt, summarized, synced,
}
use bsnexus.Models.{Deliverable, Handoff, Request, RunAttempt, WorkStep}
use bsnexus.Orchestration.Defs.{create_blocking_decision}
use bsnexus.Prelude.{
  Bool, Bool-cases, List, Option, Option-cases, String, arith, inl, inr, int_eq, join_text, length,
  nat_beq, nat_eq, none, option_eq, refl, some, string_eq, ℕ, ◌&&◌, ◌==◌, ◌∙◌, ◌≡◌,
}
use bsnexus.RunAttempts.Defs.{advance_phase, finish_run_attempt}
use bsnexus.Store.{
  Store, decision_has_id, deliverable_has_id, get, project_has_id, request_has_id,
  run_attempt_has_id, work_step_has_id,
}
use bsnexus.Verification.Run.{run_verification}
use bsnexus.WorkSteps.Defs.{move_step, transition_work_step}

module _ (rows : List Request) where
  -- the table of Requests is `rows`
  abbrev pub Has : World → Type 0
  Has w = (w.store).requests ≡ rows

  -- the table is still `rows` after a method, whether or not it raises
  pub record After {A : Type 0} (m : Result A × World) : Type 0 where
    pub same : Has m.1

  pub then-After :
      {A B : Type 0} (m : Result A × World) (f : A → Exec World B)
      → After m
      → ((a : A) (v : World) → Has v → After (f a v))
      → After (continue m.0 f m.1)
  then-After (ok a, v) f h k = k a v h.same
  then-After (err e, v) f h k = record { same = h.same }

  put-After : (a : RunAttempt) (w : World) → Has w → After (put_attempt a w)
  unfolding put_attempt
  put-After a w h = record { same = h }

  pub finish-After :
      (now : ℕ) (status : RunAttemptStatus) (reason : String) (a : RunAttempt) (w : World)
      → Has w
      → After (finish_attempt now status reason a w)
  finish-After now status reason a w h =
      then-After (finish_run_attempt now status reason a, w) _ (record { same = h })
        (λ b v g. put-After b v g)

  advance-After :
      (target : RunAttemptPhase) (a : RunAttempt) (w : World)
      → Has w
      → After (advance_attempt target a w)
  advance-After target a w h =
      then-After (advance_phase target a, w) _ (record { same = h }) (λ b v g. put-After b v g)

  move_keeps :
      (k : ℕ) (target : WorkStepStatus) (s : Store)
      → (transition_work_step k target s).1.requests ≡ s.requests
  unfolding transition_work_step move_step
  move_keeps k target s = elim (Option-cases (get k s.steps)) [
    | inl e ↦ rw (e, transition_work_step) refl
    | inr (r, e) ↦ rw (e, transition_work_step) (ground arith)
  ]

  pub move-After :
      (k : ℕ) (target : WorkStepStatus) (w : World)
      → Has w
      → After (on_store (transition_work_step k target) w)
  move-After k target w h = record { same = move_keeps k target w.store ∙ h }

  create-After :
      (tenant : ℕ) (draft : WorkOutputDraft) (w : World)
      → Has w
      → After (on_store (create_deliverable_from_work_output tenant draft) w)
  unfolding create_deliverable_from_work_output
  create-After tenant draft w h = record { same = h }

  module _ (env : Env) (tenant : ℕ) (request : Request) (step : WorkStep) where
    verify_partial-After :
        (ph : Phase) (d : Deliverable) (w : World)
        → Has w
        → After (verify_partial env tenant request step ph d w)
    unfolding verify_partial
    verify_partial-After ph d w h =
        let machine = env.machine ph.trips in
        let raw = or_null ph.session.attempt.verification_contract in
        elim (Result-cases (
          run_verification env.lower env.str_of machine.venv_host machine.hosts (w.store).next_id
            machine.heuristic raw d)) [
              | inl (v, e) ↦ rw (e, verify_partial) (record { same = h })
              | inr (x, e) ↦ rw (e, verify_partial) (record { same = h })
            ]

    surface-After :
        (ph : Phase) (w : World)
        → Has w
        → After (surface_partial_deliverable env tenant request step ph w)
    unfolding surface_partial_deliverable
    surface-After ph w h = elim (Bool-cases (nat_beq (length ph.written) 0)) [
      | inl e ↦ rw (e, surface_partial_deliverable) (record { same = h })
      | inr e ↦
          rw (e, surface_partial_deliverable)
            (then-After _ _ (create-After tenant (output_draft env tenant request step ph) w h)
              (λ d v g. verify_partial-After ph d v g))
    ]

    partial-After :
        (reason : String) (a : RunAttempt) (ph : Phase) (w : World)
        → Has w
        → After (conclude_partial env tenant request step reason a ph w)
    partial-After reason a ph w h =
        then-After _ _ (surface-After ph w h) (λ d v g. record { same = g })

    natural_exit-After :
        (now : ℕ) (ph : Phase) (w : World)
        → Has w
        → After (natural_exit env tenant request step now ph w)
    unfolding natural_exit
    natural_exit-After now ph w h =
        then-After _ _ (advance-After RunAttemptPhase.verify ph.session.attempt w h) (λ a w1 h1.
          then-After _ _ (advance-After RunAttemptPhase.summarize a w1 h1) (λ b w2 h2.
            then-After _ _
              (finish-After now RunAttemptStatus.completed "summarized"
                (summarized env.sort_names ph.final_text b) w2 h2)
              (λ c w3 h3.
                then-After _ _ (create-After tenant (output_draft env tenant request step ph) w3 h3)
                  (λ d w4 h4.
                    then-After _ _ (move-After step.id WorkStepStatus.verifying w4 h4) (λ u w5 h5.
                      then-After (env.publish, w5) _ (record { same = h5 })
                        (λ u w6 h6. record { same = h6 }))))))

    ask_founder-After :
        (reason : String) (ph : Phase) (w : World)
        → Has w
        → After (ask_founder env tenant request step reason ph w)
    unfolding ask_founder create_blocking_decision
    ask_founder-After reason ph w h =
        then-After _ _ (move-After step.id WorkStepStatus.needs_decision w h) (λ u v g.
          then-After (on_store (create_blocking_decision request (some step) reason none) v) _
            (record { same = g }) (λ d x i. partial-After reason ph.session.attempt ph x i))

    leaked-After :
        (now : ℕ) (reason : String) (a : RunAttempt) (w : World)
        → Has w
        → After (finish_leaked env tenant request step now reason a w)
    unfolding finish_leaked
    leaked-After now reason a w h = elim (Bool-cases (a.status == RunAttemptStatus.running)) [
      | inl e ↦ rw (e, finish_leaked) (finish-After now RunAttemptStatus.failed reason a w h)
      | inr e ↦ rw (e, finish_leaked) (record { same = h })
    ]

    fail-After :
        (now : ℕ) (reason : String) (ph : Phase) (w : World)
        → Has w
        → After (fail_terminated env tenant request step now reason ph w)
    unfolding fail_terminated
    fail-After now reason ph w h =
        then-After _ _ (move-After step.id WorkStepStatus.failed w h) (λ u v g.
          then-After _ _ (leaked-After now reason ph.session.attempt v g)
            (λ a x i. partial-After reason a ph x i))

    termination-After :
        (can_continue : Bool) (now : ℕ) (reason : String) (ph : Phase) (w : World)
        → Has w
        → After (after_termination env tenant request step can_continue now reason ph w)
    unfolding after_termination hand_over
    termination-After can_continue now reason ph w h =
        elim (Bool-cases (can_continue && is_budget_termination reason)) [
          | inl e ↦ rw (e, after_termination) (record { same = h })
          | inr e ↦ elim (Bool-cases (is_budget_termination reason)) [
            | inl b ↦ rw (e, b, after_termination) (ask_founder-After reason ph w h)
            | inr b ↦ rw (e, b, after_termination) (fail-After now reason ph w h)
          ]
        ]

    crash-After :
        (now : ℕ) (e : Error) (ph : Phase) (w : World)
        → Has w
        → After (after_crash env tenant request step now e ph w)
    unfolding after_crash
    crash-After now e ph w h =
        then-After _ _
          (finish-After now RunAttemptStatus.failed (join_text "executor_error:" (class_name e))
            ph.session.attempt w h)
          (λ a v g.
            then-After _ _ (move-After step.id WorkStepStatus.failed v g)
              (λ u x i. record { same = i }))

    conclude-After :
        (can_continue : Bool) (now : ℕ) (end : WorkEnd) (w : World)
        → Has w
        → After (conclude_attempt env tenant request step can_continue now end w)
    unfolding conclude_attempt
    conclude-After can_continue now (settled ph) w h =
        let captured = capture_verification_contract ph in
        natural_exit-After now captured (synced captured w) h
    conclude-After can_continue now (terminated reason ph) w h =
        let captured = capture_verification_contract ph in
        termination-After can_continue now reason captured (synced captured w) h
    conclude-After can_continue now (crashed e ph) w h = crash-After now e ph (synced ph w) h

    set_running_keeps :
        (s : Store) → (set_running env tenant request step s).1.requests ≡ s.requests
    unfolding set_running
    set_running_keeps s = elim (Option-cases (get step.id s.steps)) [
      | inl e ↦ rw (e, set_running) refl
      | inr (row, e) ↦ elim (Bool-cases (row.status == WorkStepStatus.running)) [
        | inl r ↦ rw (e, set_running) (rw r refl)
        | inr r ↦ rw (e, set_running) (rw r (move_keeps step.id WorkStepStatus.running s))
      ]
    ]

    pub add-After :
        (kind : String) (model : Option String) (w : World)
        → Has w
        → After (add_attempt env tenant request step kind model w)
    unfolding add_attempt
    add-After kind model w h = record { same = h }

    pub execute-After :
        (kind : String) (model : Option String) (seed : Option Handoff) (can_continue : Bool)
        (w : World)
        → Has w
        → After (execute_one_attempt env tenant request step kind model seed can_continue w)
    unfolding execute_one_attempt
    execute-After kind model seed can_continue w h =
        then-After _ _ (add-After kind model w h) (λ created w1 h1.
          then-After (on_store (set_running env tenant request step) w1) _
            (record { same = set_running_keeps w1.store ∙ h1 })
            (λ u w2 h2.
              then-After _ _ (advance-After RunAttemptPhase.work created w2 h2) (λ a w3 h3.
                conclude-After can_continue (w3.store).now
                  (work_and_retry env (w3.store).now (starting env tenant request step seed a w3))
                  w3 h3)))
