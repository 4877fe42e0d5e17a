-- ===== src/Executor/Work.antt =====
-- core/run_attempt_executor.py: the tool loop of the work phase.
--
-- `digest` is `hash_tool_args`, `summary_of` is `_short_args_summary`, `now` the clock.
pub mod Turns
pub mod Life
use bsnexus.Domain.{
  RunAttemptPhase, RunAttemptStatus, deliverable_status_eq, deliverable_type_eq,
  proof_aspect_status_eq, proof_aspect_type_eq, proof_state_eq, request_status_eq,
  run_attempt_phase_eq, run_attempt_status_eq, work_plan_status_eq, work_step_status_eq,
}
use bsnexus.Effects.{Error, Result, err, ok}
use bsnexus.Executor.Defs.{
  Llm, Message, Phase, ToolCall, Toolbox, WorkEnd, add_written, assistant_calls, assistant_says,
  class_name, crashed, end_attempt, invoke_tool_safely, is_file_tool, max_no_work_nudges, settled,
  soft_pressure_headroom, terminated, tool_says, user_says,
}
use bsnexus.Executor.Handoff.{or_else}
use bsnexus.Json.{Fields}
use bsnexus.Models.{RunAttempt}
use bsnexus.Prelude.{
  Bool, List, Option, String, [], if◌then◌else◌, int_eq, is_empty, join_text, length, ltb, nat_beq,
  nat_eq, none, not, option_eq, or_empty, pos, some, string_eq, suc, take_text, zero, ℕ, ◌&&◌, ◌++◌,
  ◌+◌, ◌-◌, ◌==◌, ◌||◌, ◌∷◌,
}
use bsnexus.RunAttempts.Bounds.{rounds}
use bsnexus.RunAttempts.Defs.{Session, ToolEventInput, ToolEventResult, phase_round_budgets}
use bsnexus.RunAttempts.Events.{record_tool_event}
use bsnexus.RunAttempts.Histories.{call, calls}
use bsnexus.Store.{
  decision_has_id, deliverable_has_id, project_has_id, request_has_id, run_attempt_has_id,
  work_step_has_id,
}

abbrev pub no_work_message : String
no_work_message =
    "You have not created or modified any file yet. A prose answer is not a deliverable. Use file_write now to create or modify the required file, then run shell_exec if a verifier is available. If you need context, use file_read or file_list first."

abbrev soft_pressure_message : String
soft_pressure_message =
    "BUDGET NEARLY EXHAUSTED — you have a few rounds left. Finish the change you are on and bring the workspace to a clean, consistent state. Do NOT start new work. If the step is complete, run the verifier and send your final plain-text summary now."

abbrev repeat_message : String → String
repeat_message nudge =
    join_text nudge
      " You have already seen this tool result. Do not repeat the same read/list call. If no file has been written yet, use file_write with the required change now; otherwise send the final summary."

-- one tool call goes on, or ends the loop
pub data Turn : Type 0 where
  goes_on : Phase → Turn
  stops : WorkEnd → Turn

abbrev pub say : Message → Phase → Phase
say m ph = record ph { messages = ph.messages ++ m ∷ [] }

abbrev pub arguments_of : ToolCall → Fields
arguments_of call = elim (call.arguments) [ none ↦ Fields.end | some fields ↦ fields ]

abbrev pub work_rounds : RunAttempt → ℕ
work_rounds a = a.telemetry.phase_rounds RunAttemptPhase.work

abbrev repeat_nudge : Option String → Phase → Phase
repeat_nudge none ph = ph
repeat_nudge (some nudge) ph = say (user_says (repeat_message nudge)) ph

-- the pressure and the nudge after an event that did not end the attempt
unfoldable pub after_event : ToolEventResult → Phase → Phase
after_event result ph = repeat_nudge result.nudge (
    if work_rounds ph.session.attempt
      == phase_round_budgets RunAttemptPhase.work - soft_pressure_headroom
    then say (user_says soft_pressure_message) ph
    else ph)

abbrev or_reason : Option String → String
or_reason none = "work_loop_terminated"
or_reason (some reason) = if is_empty reason then "work_loop_terminated" else reason

-- `except Exception` around `record_tool_event`
unfoldable pub event_failed : ℕ → Error → Phase → WorkEnd
unfolding end_attempt
event_failed now e ph =
    let reason = join_text "tool_event_error:" (class_name e) in
    if ph.session.attempt.status == RunAttemptStatus.running
    then end_attempt now RunAttemptStatus.failed reason ph
    else terminated reason ph

-- what follows a recorded event; `text` is the tool's output
unfoldable pub event_recorded : String → String → ToolEventResult → Phase → Turn
unfolding after_event
event_recorded call_id text result ph =
    let told = say (tool_says call_id text) ph in
    if result.terminated
    then stops (terminated (or_reason result.terminal_reason) told)
    else goes_on (after_event result told)

-- both ends of `record_tool_event`
unfoldable pub recorded : ℕ → String → String → Result ToolEventResult × Session → Phase → Turn
unfolding event_failed event_recorded
recorded now call_id text (err e, s) ph = stops (event_failed now e (record ph { session = s }))
recorded now call_id text (ok result, s) ph =
    event_recorded call_id text result (record ph { session = s })

abbrev pub kept_writes : String → ℕ → List String → List String → List String
kept_writes name code writes written =
    if is_file_tool name && code == 0 then add_written written writes else written

module _ (digest : Fields → String) (summary_of : String → Fields → String) (now : ℕ)
    (tools : Toolbox) where
  abbrev pub event_of : String → Fields → String × ℕ × List String → ToolEventInput
  event_of name arguments (text, code, writes) = record {
    tool_name = name;
    args = arguments;
    args_summary = some (summary_of name arguments);
    result_summary = some (take_text 200 text);
    exit_code = some (pos code);
    writes = some writes;
  }

  unfoldable pub record_call : ToolCall → String × ℕ × List String → Phase → Turn
  unfolding recorded
  record_call call (text, code, writes) ph =
      recorded now call.call_id text
        (record_tool_event digest now (event_of call.name (arguments_of call) (text, code, writes))
          ph.session)
        (record ph { written = kept_writes call.name code writes ph.written })

  -- the contract is declared by the call, before its event is recorded
  abbrev pub declaring : ToolCall → Phase → Phase
  declaring call ph = elim (tools.declared ph.session.next_id call.name (arguments_of call)) [
    | none ↦ ph
    | some c ↦ record ph { contract = some c }
  ]

  -- the body of the loop over `tool_calls`
  unfoldable pub run_call : ToolCall → Phase → Turn
  unfolding record_call invoke_tool_safely
  run_call call ph =
      elim (invoke_tool_safely tools ph.session.next_id call.name (arguments_of call)) [
        | err e ↦ stops (crashed e ph)
        | ok reply ↦ record_call call reply (declaring call ph)
      ]

  unfoldable pub run_calls : List ToolCall → Phase → Turn
  run_calls [] ph = goes_on ph
  run_calls (call ∷ calls) ph = elim (run_call call ph) [
    | goes_on ph' ↦ run_calls calls ph'
    | stops e ↦ stops e
  ]

  -- the loop after one reply; `rest` is its next rounds, `nudges` is `no_work_nudges`
  unfoldable pub after_reply : (ℕ → Phase → WorkEnd) → Bool → ℕ → List ToolCall → Phase → WorkEnd
  unfolding end_attempt run_calls
  after_reply rest registry nudges [] ph =
      if not registry || not (nat_beq (length ph.written) 0)
      then settled ph
      else if ltb nudges max_no_work_nudges
      then rest (nudges + 1) (
          say (user_says no_work_message)
            (say (assistant_says (or_else ph.final_text "(no tool calls)")) ph))
      else end_attempt now RunAttemptStatus.failed "failed_nonconvergent:no_workspace_write"
          (record ph { final_text = "" })
  after_reply rest registry nudges (call ∷ calls) ph =
      if not registry
      then settled ph
      else elim (run_calls (call ∷ calls) (say (assistant_calls ph.final_text (call ∷ calls)) ph)) [
        | goes_on ph' ↦ rest nudges ph'
        | stops e ↦ e
      ]

  module _ (llm : Llm) (registry : Bool) where
    -- the loop of `_run_work_phase` with the rounds that are left
    unfoldable pub work_loop : ℕ → ℕ → Phase → WorkEnd
    unfolding after_reply
    work_loop zero nudges ph =
        end_attempt now RunAttemptStatus.timed_out "work_loop_iteration_cap" ph
    work_loop (suc left) nudges ph = elim (llm ph.trips ph.messages registry) [
      | err e ↦ crashed e (record ph { trips = ph.trips + 1 })
      | ok reply ↦
          after_reply (work_loop left) registry nudges reply.tool_calls
            (record ph { trips = ph.trips + 1; final_text = or_empty reply.output_ref })
    ]

    -- `_run_work_phase`; the caller keeps what was written before
    unfoldable pub run_work_phase : ℕ → Phase → WorkEnd
    unfolding work_loop
    run_work_phase rounds ph = work_loop rounds 0 (record ph { final_text = "" })
