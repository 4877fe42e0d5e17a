-- ===== src/Executor/Attempt.antt =====
-- core/run_attempt_executor.py: `_execute_one_attempt`, from the new RunAttempt to what it leaves.
--
-- `create_blocking_decision` also publishes an event, which is soft and left out.
pub mod Methods
pub mod Settles
pub mod Outcomes
pub mod Branches
pub mod Executes
pub mod Rows
use bsnexus.Contract.Defs.{parse_verification_contract}
use bsnexus.Domain.{
  DeliverableStatus, DeliverableType, ProofState, RunAttemptPhase, RunAttemptStatus, WorkStepStatus,
  deliverable_status_eq, deliverable_type_eq, proof_aspect_status_eq, proof_aspect_type_eq,
  proof_state_eq, request_status_eq, run_attempt_phase_eq, run_attempt_status_eq,
  work_plan_status_eq, work_step_status_eq,
}
use bsnexus.Effects.{Error, Exec, err, lift, modify, ok, pure, ◌>>=◌, ◌>>◌}
use bsnexus.Executor.Defs.{
  Phase, WorkEnd, class_name, crashed, is_budget_termination, settled, summary_preview_chars,
  terminated,
}
use bsnexus.Executor.Handoff.{generate_handoff_record}
use bsnexus.Executor.Retry.{Env, or_null, work_and_retry}
use bsnexus.Executor.World.{
  AttemptOutcome, WorkOutputDraft, World, advance_attempt, capture_verification_contract, concludes,
  create_deliverable_from_work_output, demoted, finish_attempt, hands_over, on_store, or_none,
  put_attempt, queued_rows, summarized, synced, with_handoff,
}
use bsnexus.Models.{Deliverable, Handoff, Request, RunAttempt, VerificationAspect, WorkStep}
use bsnexus.Orchestration.Defs.{create_blocking_decision}
use bsnexus.Prelude.{
  Bool, List, Option, String, [], if◌then◌else◌, int_eq, join_text, length, nat_beq, nat_eq, none,
  option_eq, some, string_eq, take_text, ℕ, ◌&&◌, ◌++◌, ◌+◌, ◌==◌, ◌∷◌,
}
use bsnexus.RunAttempts.Defs.{create_run_attempt}
use bsnexus.Store.{
  Store, decision_has_id, deliverable_has_id, found, get, project_has_id, request_has_id,
  run_attempt_has_id, update, work_step_has_id,
}
use bsnexus.Verification.Run.{chosen_specs, run_verification}
use bsnexus.Verification.Specs.{AspectSpec}
use bsnexus.WorkSteps.Defs.{transition_work_step}

-- what an attempt is for
module _ (env : Env) (tenant : ℕ) (request : Request) (step : WorkStep) where
  abbrev pub output_draft : Phase → WorkOutputDraft
  output_draft ph = record {
    project_id = request.project_id;
    title = step.draft.name;
    type = DeliverableType.code;
    request_id = some request.id;
    work_step_id = some step.id;
    summary = or_none (take_text summary_preview_chars ph.final_text);
    artifact_refs = ph.written;
    risk_summary = none;
  }

  -- the row after its diagnostic run, which is saved with its aspects
  abbrev save_partial : Deliverable → List VerificationAspect → Exec World (Option Deliverable)
  save_partial d aspects w = (
    ok (some d),
    record w {
      store = record (w.store) {
        deliverables = update d.id (λ _. d) (w.store).deliverables;
        aspects = (w.store).aspects ++ aspects;
        next_id = (w.store).next_id + length aspects;
      };
    },
  )

  abbrev specs_of : Phase → List AspectSpec
  specs_of ph = chosen_specs (env.machine ph.trips).heuristic (
      parse_verification_contract env.lower env.str_of
        (or_null ph.session.attempt.verification_contract))

  -- a crash of the verification is caught; it leaves `verifying`, and queued aspects
  unfoldable pub verify_partial : Phase → Deliverable → Exec World (Option Deliverable)
  unfolding queued_rows
  verify_partial ph d w =
      let machine = env.machine ph.trips in
      let raw = or_null ph.session.attempt.verification_contract in
      elim (run_verification env.lower env.str_of machine.venv_host machine.hosts (w.store).next_id
        machine.heuristic raw d) [
          | ok v ↦ save_partial (demoted v.deliverable) v.aspects w
          | err e ↦
              save_partial
                (demoted (record d {
                  proof_state = ProofState.verifying;
                  status = DeliverableStatus.verifying;
                }))
                (queued_rows (w.store).next_id d.id (specs_of ph)) w
        ]

  -- `_surface_partial_deliverable`
  unfoldable pub surface_partial_deliverable : Phase → Exec World (Option Deliverable)
  unfolding verify_partial
  surface_partial_deliverable ph = if nat_beq (length ph.written) 0 then pure none else do
    d ← on_store (create_deliverable_from_work_output tenant (output_draft ph))
    verify_partial ph d

  -- from the end of the `try` on
  unfoldable pub natural_exit : ℕ → Phase → Exec World AttemptOutcome
  natural_exit now ph = do
    a ← advance_attempt RunAttemptPhase.verify ph.session.attempt
    b ← advance_attempt RunAttemptPhase.summarize a
    c ←
        finish_attempt now RunAttemptStatus.completed "summarized"
          (summarized env.sort_names ph.final_text b)
    d ← on_store (create_deliverable_from_work_output tenant (output_draft ph))
    on_store (transition_work_step step.id WorkStepStatus.verifying)
    lift (env.publish)
    modify (λ w. record w { queue = w.queue ++ d.id ∷ [] })
    pure (concludes (record { attempt = c; deliverable = some d; terminal_reason = "summarized" }))

  -- both final results of a terminated attempt
  abbrev pub conclude_partial : String → RunAttempt → Phase → Exec World AttemptOutcome
  conclude_partial reason a ph = do
    d ← surface_partial_deliverable ph
    pure (concludes (record { attempt = a; deliverable = d; terminal_reason = reason }))

  -- the budget is gone, and so are the continuations
  unfoldable pub ask_founder : String → Phase → Exec World AttemptOutcome
  unfolding surface_partial_deliverable
  ask_founder reason ph = do
    on_store (transition_work_step step.id WorkStepStatus.needs_decision)
    on_store (create_blocking_decision request (some step) reason none)
    conclude_partial reason ph.session.attempt ph

  -- the guard against a leaked running attempt
  unfoldable pub finish_leaked : ℕ → String → RunAttempt → Exec World RunAttempt
  unfolding put_attempt
  finish_leaked now reason a =
      if a.status == RunAttemptStatus.running
      then finish_attempt now RunAttemptStatus.failed reason a
      else pure a

  unfoldable pub fail_terminated : ℕ → String → Phase → Exec World AttemptOutcome
  unfolding surface_partial_deliverable finish_leaked
  fail_terminated now reason ph = do
    on_store (transition_work_step step.id WorkStepStatus.failed)
    a ← finish_leaked now reason ph.session.attempt
    conclude_partial reason a ph

  -- the handoff of one attempt to the next; its call of the LLM is counted
  unfoldable pub hand_over : Phase → Exec World AttemptOutcome
  hand_over ph w =
      let made =
        generate_handoff_record env.lower env.str_of env.loads env.llm (env.request_text ph) ph in
      (ok (hands_over made.0), synced (with_handoff made) w)

  -- `except _ToolLoopTerminated`
  unfoldable pub after_termination : Bool → ℕ → String → Phase → Exec World AttemptOutcome
  unfolding ask_founder fail_terminated hand_over is_budget_termination
  after_termination can_continue now reason ph =
      if can_continue && is_budget_termination reason
      then hand_over ph
      else if is_budget_termination reason
      then ask_founder reason ph
      else fail_terminated now reason ph

  -- `except Exception`
  unfoldable pub after_crash : ℕ → Error → Phase → Exec World AttemptOutcome
  unfolding put_attempt
  after_crash now e ph = do
    a ←
        finish_attempt now RunAttemptStatus.failed (join_text "executor_error:" (class_name e))
          ph.session.attempt
    on_store (transition_work_step step.id WorkStepStatus.failed)
    pure (
        concludes (record {
          attempt = a;
          deliverable = none;
          terminal_reason = join_text "executor_error:" (class_name e);
        }))

  unfoldable pub conclude_attempt : Bool → ℕ → WorkEnd → Exec World AttemptOutcome
  unfolding natural_exit after_termination after_crash capture_verification_contract
  conclude_attempt can_continue now (settled ph) w =
      let captured = capture_verification_contract ph in
      natural_exit now captured (synced captured w)
  conclude_attempt can_continue now (terminated reason ph) w =
      let captured = capture_verification_contract ph in
      after_termination can_continue now reason captured (synced captured w)
  conclude_attempt can_continue now (crashed e ph) w = after_crash now e ph (synced ph w)

  -- the new attempt's row
  unfoldable pub add_attempt : String → Option String → Exec World RunAttempt
  add_attempt kind model w =
      let a = create_run_attempt (w.store).next_id (w.store).now step.id kind model in
      (
        ok a,
        record w {
          store = record (w.store) {
            attempts = (w.store).attempts ++ a ∷ [];
            next_id = (w.store).next_id + 1;
          };
        },
      )

  -- the step runs, if it does not already
  unfoldable pub set_running : Exec Store (Unit {0})
  set_running s = elim (get step.id s.steps) [
    | none ↦ (found none, s)
    | some row ↦
        if row.status == WorkStepStatus.running
        then (ok tt, s)
        else transition_work_step step.id WorkStepStatus.running s
  ]

  -- the state in which the work starts
  abbrev pub starting : Option Handoff → RunAttempt → World → Phase
  starting seed a w = record {
    session = record { attempt = a; events = w.tool_events; next_id = w.next_event };
    messages = env.prompt seed;
    written = [];
    contract = none;
    final_text = "";
    trips = w.trips;
  }

  -- `_execute_one_attempt`
  unfoldable pub execute_one_attempt :
      String → Option String → Option Handoff → Bool → Exec World AttemptOutcome
  unfolding add_attempt set_running put_attempt conclude_attempt
  execute_one_attempt kind model seed can_continue = do
    created ← add_attempt kind model
    on_store set_running
    a ← advance_attempt RunAttemptPhase.work created
    (λ w.
        conclude_attempt can_continue (w.store).now
          (work_and_retry env (w.store).now (starting seed a w)) w)
