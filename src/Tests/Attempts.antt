-- ===== src/Tests/Attempts.antt =====
-- The theorems on run attempts, applied.
use bsnexus.Domain.{RunAttemptPhase, RunAttemptStatus}
use bsnexus.Effects.{ok}
use bsnexus.Json.{Fields, Value, get_field}
use bsnexus.Models.{ToolEvent}
use bsnexus.Prelude.{
  List, String, [], arith, false, filter, if◌then◌else◌, inr, none, order_by, refl, some, true, ℕ,
  ◌++◌, ◌∷◌, ◌≡◌, ◌≤◌,
}
use bsnexus.RunAttempts.Bounds.{IsSound, create-IsSound, record-IsSound}
use bsnexus.RunAttempts.Defs.{
  Session, ToolEventInput, ToolEventResult, closed, create_run_attempt, is_running,
}
use bsnexus.RunAttempts.Ended.{HasEnded, ended_is_frozen, is_report}
use bsnexus.RunAttempts.Endings.{Ends, cap_never_decides, reason_without_cap, record-Ends}
use bsnexus.RunAttempts.Events.{
  accept_event, accept_llm_phase_output, conclude_event, count_round, new_event, nudge_message,
  record_tool_event, repeated_reason, repetition_nudge_if_needed, terminal_reason_after_event,
}
use bsnexus.RunAttempts.Histories.{
  Call, advance, attempt_bounded, calls, llm_output, own_events, tool_call,
}
use bsnexus.RunAttempts.Output.{IsLogged, accept_output_exact}
use bsnexus.RunAttempts.Repetition.{newest_first, repeats_last, repeats_three, repetition_exact}

abbrev sample_digest : Fields → String
sample_digest fields = "h"

abbrev keep_order : List String → List String
keep_order names = names

abbrev first_session : Session
first_session = record { attempt = create_run_attempt 1 0 4 "api" none; events = []; next_id = 10 }

abbrev read_input : ToolEventInput
read_input = record {
  tool_name = "file_read";
  args = Fields.end;
  args_summary = none;
  result_summary = none;
  exit_code = none;
  writes = none;
}

abbrev some_calls : List Call
some_calls = tool_call 1 read_input ∷ advance RunAttemptPhase.work ∷ tool_call 2 read_input ∷ []

attempt_bounded_example :
    let t = calls sample_digest keep_order some_calls first_session in
    (own_events t.attempt.id t.events ≤ 53)
    × (own_events t.attempt.id t.events ≡ t.attempt.round_count)
unfolding create_run_attempt
attempt_bounded_example =
    attempt_bounded sample_digest keep_order some_calls first_session
      (record { sound = create-IsSound 1 0 4 "api" none; logged = refl })

abbrev first_event : ToolEvent
first_event = new_event sample_digest read_input 10 (count_round first_session.attempt)

cap_never_decides_example :
    terminal_reason_after_event (count_round first_session.attempt) first_event (first_event ∷ [])
    ≡ reason_without_cap (count_round first_session.attempt) first_event (first_event ∷ [])
unfolding create_run_attempt is_running
cap_never_decides_example =
    cap_never_decides first_session.attempt "file_read" first_event (first_event ∷ [])
      (create-IsSound 1 0 4 "api" none) refl refl

abbrev first_result : ToolEventResult
first_result = record {
  event = first_event;
  terminated = false;
  terminal_reason = none;
  nudge = none;
}

abbrev second_session : Session
second_session = (record_tool_event sample_digest 1 read_input first_session).1

first_accepted :
    record_tool_event sample_digest 1 read_input first_session ≡ (ok first_result, second_session)
unfolding record_tool_event accept_event conclude_event create_run_attempt is_running
    terminal_reason_after_event count_round new_event repetition_nudge_if_needed
first_accepted = refl

record-Ends_example : Ends first_session.attempt.phase first_result second_session.attempt
record-Ends_example =
    record-Ends sample_digest 1 read_input first_session (create-IsSound 1 0 4 "api" none)
      first_result second_session first_accepted

abbrev ended_session : Session
ended_session = record first_session {
  attempt = closed 5 RunAttemptStatus.completed "done" first_session.attempt;
}

-- a tool call, an output of the LLM and a phase change, after the end
abbrev late_calls : List Call
late_calls =
    tool_call 6 read_input
    ∷ llm_output (Fields.field "status" (Value.str "running") Fields.end)
    ∷ advance RunAttemptPhase.work
    ∷ []

ended_is_frozen_example :
    HasEnded (calls sample_digest keep_order late_calls ended_session).attempt
    × ((calls sample_digest keep_order late_calls ended_session).events ≡ ended_session.events)
    × (calls sample_digest keep_order late_calls ended_session
        ≡ calls sample_digest keep_order (filter is_report late_calls) ended_session)
unfolding closed
ended_is_frozen_example =
    ended_is_frozen sample_digest keep_order late_calls ended_session (inr refl)

abbrev event_at : ℕ → ToolEvent
event_at i = record {
  id = i;
  run_attempt_id = 1;
  round_index = i;
  tool_name = "file_read";
  args_hash = "h";
  args_summary = none;
  result_summary = none;
  exit_code = none;
  writes = [];
}

abbrev three_events : List ToolEvent
three_events = event_at 1 ∷ event_at 2 ∷ event_at 3 ∷ []

repetition_exact_example :
    (terminal_reason_after_event first_session.attempt
        (event_at 4)
        (three_events ++ event_at 4 ∷ [])
      ≡ (if repeats_three (event_at 4) (newest_first 1 three_events)
          then some (repeated_reason "file_read")
          else none))
    × ((repetition_nudge_if_needed first_session.attempt
          (event_at 4)
          (three_events ++ event_at 4 ∷ [])).0
        ≡ (if repeats_last (event_at 4) (newest_first 1 three_events)
            then some nudge_message
            else none))
unfolding create_run_attempt
repetition_exact_example =
    repetition_exact first_session.attempt (event_at 4) three_events 3 refl (omega arith)
      ((λ h. omega arith), ((λ h. omega arith), ((λ h. omega arith), tt))) (omega arith)
      (omega arith)

-- the fourth call of a row ends the attempt
fourth_in_a_row : repeats_three (event_at 4) (newest_first 1 three_events) ≡ true
unfolding newest_first order_by
fourth_in_a_row = refl

record-IsSound_example :
    IsSound (record_tool_event sample_digest 1 read_input first_session).1.attempt
record-IsSound_example =
    record-IsSound sample_digest 1 read_input first_session (create-IsSound 1 0 4 "api" none)

-- an LLM that reports a summary and claims a status
abbrev bold_payload : Fields
bold_payload =
    Fields.field "summary" (Value.str "did it")
      (Fields.field "status" (Value.str "completed") Fields.end)

accept_output_exact_example :
    let (accepted, b) = accept_llm_phase_output keep_order bold_payload first_session.attempt in
    (get_field "status" accepted ≡ none) × IsLogged first_session.attempt b
accept_output_exact_example =
    accept_output_exact keep_order bold_payload first_session.attempt "status"
