-- ===== src/RunAttempts/Events.antt =====
-- core/run_attempts.py: tool events, what ends an attempt, and what an LLM's output may hold.
use bsnexus.Domain.{
  RunAttemptPhase, RunAttemptStatus, deliverable_status_eq, deliverable_type_eq,
  proof_aspect_status_eq, proof_aspect_type_eq, proof_state_eq, request_status_eq,
  run_attempt_phase_eq, run_attempt_status_eq, work_plan_status_eq, work_step_status_eq,
}
use bsnexus.Effects.{Exec, attempt_is_terminal, err, ok, run_attempt_state, tool_not_allowed}
use bsnexus.Json.{Fields}
use bsnexus.Models.{RunAttempt, Telemetry, ToolEvent}
use bsnexus.Prelude.{
  Bool, List, Option, String, [], any, contains, count_if, false, filter, if◌then◌else◌, int_eq,
  is_infix, join_text, leb, length, ltb, nat_beq, nat_eq, none, not, option_eq, order_by, some,
  string_eq, take, true, ℕ, ◌&&◌, ◌++◌, ◌+◌, ◌==◌, ◌∷◌,
}
use bsnexus.RunAttempts.Defs.{
  Session, ToolEventInput, ToolEventResult, allowed_tools_by_phase, catastrophic_round_cap,
  finish_run_attempt, forbidden_llm_system_fields, is_running, llm_owned_fields,
  phase_round_budgets, phase_value, repetition_termination_count, repetition_window,
}
use bsnexus.Store.{
  decision_has_id, deliverable_has_id, project_has_id, request_has_id, run_attempt_has_id,
  work_step_has_id,
}

-- `phase_rounds[phase] + 1` and `round_count += 1`
unfoldable pub count_round : RunAttempt → RunAttempt
count_round a = record a {
  round_count = a.round_count + 1;
  telemetry = record (a.telemetry) {
    phase_rounds = λ p.
        if p == a.phase then a.telemetry.phase_rounds a.phase + 1 else a.telemetry.phase_rounds p;
  };
}

-- `select(ToolEvent).where(run_attempt_id = …).order_by(round_index.desc()).limit(n)`
unfoldable pub recent_events : ℕ → ℕ → List ToolEvent → List ToolEvent
unfolding order_by
recent_events n attempt_id events = take n (
    order_by (λ a b. ltb b.round_index a.round_index)
      (filter (λ e. e.run_attempt_id == attempt_id) events))

abbrev pub same_call : ToolEvent → ToolEvent → Bool
same_call e r = r.tool_name == e.tool_name && r.args_hash == e.args_hash

abbrev pub repeated_reason : String → String
repeated_reason tool = join_text "failed_nonconvergent:repeated_tool_call:" tool

abbrev pub budget_reason : RunAttemptPhase → String
budget_reason p = join_text "phase_round_budget_exceeded:" (phase_value p)

-- `_terminal_reason_after_event`
unfoldable pub terminal_reason_after_event : RunAttempt → ToolEvent → List ToolEvent → Option String
unfolding join_text recent_events
terminal_reason_after_event a event events =
    if leb catastrophic_round_cap a.round_count
    then some "catastrophic_round_budget_exceeded"
    else if ltb (phase_round_budgets a.phase) (a.telemetry.phase_rounds a.phase)
    then some (budget_reason a.phase)
    else if leb repetition_termination_count
        (count_if (same_call event) (recent_events repetition_window a.id events))
    then some (repeated_reason event.tool_name)
    else none

abbrev pub nudge_message : String
nudge_message = "You already performed this action. Move to summary or stop."

abbrev pub add_nudge : ToolEvent → Telemetry → Telemetry
add_nudge e t =
    if any (λ n. n.round_index == e.round_index) t.repetition_nudges then t else record t {
      repetition_nudges =
          t.repetition_nudges
          ++ record {
            round_index = e.round_index;
            tool_name = e.tool_name;
            args_hash = e.args_hash;
            message = nudge_message;
          }
            ∷ [];
    }

-- `_record_repetition_nudge_if_needed`
unfoldable pub repetition_nudge_if_needed :
    RunAttempt → ToolEvent → List ToolEvent → Option String × RunAttempt
unfolding recent_events
repetition_nudge_if_needed a event events =
    let recent = recent_events 2 a.id events in
    if ltb (length recent) 2
    then (none, a)
    else if any (λ r. not (same_call event r)) recent
    then (none, a)
    else (some nudge_message, record a { telemetry = add_nudge event a.telemetry })

abbrev pub termination_status : String → RunAttemptStatus
termination_status reason =
    if is_infix "repeated_tool_call" reason
    then RunAttemptStatus.failed
    else RunAttemptStatus.timed_out

abbrev pub or_empty_list : Option (List String) → List String
or_empty_list none = []
or_empty_list (some l) = l

-- the row that `record_tool_event` adds
unfoldable pub new_event : (Fields → String) → ToolEventInput → ℕ → RunAttempt → ToolEvent
new_event hash_tool_args input new_id a = record {
  id = new_id;
  run_attempt_id = a.id;
  round_index = a.round_count;
  tool_name = input.tool_name;
  args_hash = hash_tool_args input.args;
  args_summary = input.args_summary;
  result_summary = input.result_summary;
  exit_code = input.exit_code;
  writes = or_empty_list input.writes;
}

-- the end of `record_tool_event`: finish on a terminal reason, else commit
unfoldable pub conclude_event :
    ℕ → ToolEvent → Option String → Option String → Exec Session ToolEventResult
unfolding finish_run_attempt is_infix
conclude_event now event none nudge s =
    (ok (record { event = event; terminated = false; terminal_reason = none; nudge = nudge }), s)
conclude_event now event (some reason) nudge s =
    elim (finish_run_attempt now (termination_status reason) reason s.attempt) [
      | err e ↦ (err e, s)
      | ok a ↦ (
        ok (record {
          event = event;
          terminated = true;
          terminal_reason = some reason;
          nudge = nudge;
        }),
        record s { attempt = a },
      )
    ]

-- after the two guards
unfoldable pub accept_event : (Fields → String) → ℕ → ToolEventInput → Exec Session ToolEventResult
accept_event hash_tool_args now input s =
    let a = count_round s.attempt in
    let event = new_event hash_tool_args input s.next_id a in
    let events = s.events ++ event ∷ [] in
    let reason = terminal_reason_after_event a event events in
    let nudged = repetition_nudge_if_needed a event events in
    conclude_event now event reason nudged.0
      (record { attempt = nudged.1; events = events; next_id = s.next_id + 1 })

unfoldable pub record_tool_event :
    (Fields → String) → ℕ → ToolEventInput → Exec Session ToolEventResult
record_tool_event hash_tool_args now input s =
    if not (is_running s.attempt)
    then (err (run_attempt_state attempt_is_terminal), s)
    else if not (contains input.tool_name (allowed_tools_by_phase s.attempt.phase))
    then (err (run_attempt_state (tool_not_allowed input.tool_name s.attempt.phase)), s)
    else accept_event hash_tool_args now input s

-- `{key: value for key, value in payload.items() if key in keys}`
unfoldable pub keep_fields : List String → Fields → Fields
keep_fields keys Fields.end = Fields.end
keep_fields keys (Fields.field k v rest) =
    let kept = keep_fields keys rest in if contains k keys then Fields.field k v kept else kept

unfoldable pub field_names : Fields → List String
field_names Fields.end = []
field_names (Fields.field k v rest) = k ∷ field_names rest

-- `sort_names` is `sorted` on texts
unfoldable pub accept_llm_phase_output :
    (List String → List String) → Fields → RunAttempt → Fields × RunAttempt
unfolding keep_fields field_names
accept_llm_phase_output sort_names payload a =
    let accepted = keep_fields llm_owned_fields payload in
    let ignored =
      sort_names (filter (λ k. contains k forbidden_llm_system_fields) (field_names payload)) in
    if nat_beq (length ignored) 0 then (accepted, a) else (
      accepted,
      record a {
        telemetry = record (a.telemetry) {
          ignored_llm_system_fields =
              a.telemetry.ignored_llm_system_fields
              ++ record { phase = a.phase; fields = ignored } ∷ [];
        };
      },
    )
