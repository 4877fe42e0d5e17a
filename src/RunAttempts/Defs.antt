-- ===== src/RunAttempts/Defs.antt =====
-- core/run_attempts.py: the life of one RunAttempt, its telemetry and its tool events.
--
-- `hash_tool_args` (SHA-256 of the sorted JSON) is an argument. The session is the attempt's row and
-- the table of tool events; each call gets the clock that `datetime.now` reads.
use bsnexus.Domain.{
  RunAttemptPhase, RunAttemptStatus, deliverable_status_eq, deliverable_type_eq,
  proof_aspect_status_eq, proof_aspect_type_eq, proof_state_eq, request_status_eq,
  run_attempt_phase_eq, run_attempt_status_eq, work_plan_status_eq, work_step_status_eq,
}
use bsnexus.Effects.{
  Result, attempt_is_terminal, err, illegal_phase, needs_finish, ok, reason_required,
  run_attempt_state, still_running,
}
use bsnexus.Json.{Fields}
use bsnexus.Models.{RunAttempt, Telemetry, ToolEvent}
use bsnexus.Prelude.{
  Bool, List, Option, String, [], if◌then◌else◌, int_eq, is_empty, nat_eq, none, not, option_eq,
  some, string_eq, strip, ℕ, ℤ, ◌&&◌, ◌==◌, ◌∷◌,
}
use bsnexus.StateMachines.{can_advance_run_attempt_phase}
use bsnexus.Store.{
  decision_has_id, deliverable_has_id, project_has_id, request_has_id, run_attempt_has_id,
  work_step_has_id,
}

abbrev pub allowed_tools_by_phase : RunAttemptPhase → List String
allowed_tools_by_phase RunAttemptPhase.prepare =
    "file_read" ∷ "file_list" ∷ "repo_context" ∷ "knowledge_search" ∷ []
allowed_tools_by_phase RunAttemptPhase.work =
    "file_write" ∷ "file_edit" ∷ "file_read" ∷ "file_list" ∷ "shell_exec" ∷ "declare_verification"
    ∷ []
allowed_tools_by_phase RunAttemptPhase.verify = "verifier_command" ∷ []
allowed_tools_by_phase RunAttemptPhase.summarize = []
allowed_tools_by_phase RunAttemptPhase.terminal = []

abbrev pub phase_round_budgets : RunAttemptPhase → ℕ
phase_round_budgets RunAttemptPhase.prepare = 3
phase_round_budgets RunAttemptPhase.work = 48
phase_round_budgets RunAttemptPhase.verify = 1
phase_round_budgets RunAttemptPhase.summarize = 2
phase_round_budgets RunAttemptPhase.terminal = 0

abbrev pub catastrophic_round_cap : ℕ
catastrophic_round_cap = 64

abbrev pub repetition_window : ℕ
repetition_window = 4

abbrev pub repetition_termination_count : ℕ
repetition_termination_count = 4

abbrev pub llm_owned_fields : List String
llm_owned_fields = "summary" ∷ "residual_risks" ∷ "notes" ∷ "suggested_next_steps" ∷ []

abbrev pub forbidden_llm_system_fields : List String
forbidden_llm_system_fields =
    "blocking" ∷ "completion_status" ∷ "decision_blocking" ∷ "phase" ∷ "proof_state"
    ∷ "request_status" ∷ "shipped" ∷ "status" ∷ "terminal_reason" ∷ "verified" ∷ "verifier_type"
    ∷ []

abbrev pub phase_value : RunAttemptPhase → String
phase_value RunAttemptPhase.prepare = "prepare"
phase_value RunAttemptPhase.work = "work"
phase_value RunAttemptPhase.verify = "verify"
phase_value RunAttemptPhase.summarize = "summarize"
phase_value RunAttemptPhase.terminal = "terminal"

pub record ToolEventInput : Type 0 where
  pub tool_name : String
  pub args : Fields
  pub args_summary : Option String
  pub result_summary : Option String
  pub exit_code : Option ℤ
  pub writes : Option (List String)

pub record ToolEventResult : Type 0 where
  pub event : ToolEvent
  pub terminated : Bool
  pub terminal_reason : Option String
  pub nudge : Option String

pub record Session : Type 0 where
  pub attempt : RunAttempt
  pub events : List ToolEvent
  pub next_id : ℕ

abbrev pub empty_telemetry : Telemetry
empty_telemetry = record {
  phase_rounds = λ _. 0;
  ignored_llm_system_fields = [];
  repetition_nudges = [];
  termination = none;
}

unfoldable pub create_run_attempt : ℕ → ℕ → ℕ → String → Option String → RunAttempt
create_run_attempt new_id now step_id executor_kind model = record {
  id = new_id;
  work_step_id = step_id;
  executor_kind = executor_kind;
  model = model;
  phase = RunAttemptPhase.prepare;
  status = RunAttemptStatus.running;
  round_count = 0;
  terminal_reason = none;
  telemetry = empty_telemetry;
  verification_contract = none;
  handoff = none;
  started_at = now;
  completed_at = none;
}

-- `_ensure_running`
unfoldable pub is_running : RunAttempt → Bool
is_running a = a.status == RunAttemptStatus.running && not (a.phase == RunAttemptPhase.terminal)

-- `setdefault(target.value, 0)` adds an entry that reads as before
unfoldable pub advance_phase : RunAttemptPhase → RunAttempt → Result RunAttempt
unfolding is_running can_advance_run_attempt_phase
advance_phase target a =
    if not (is_running a)
    then err (run_attempt_state attempt_is_terminal)
    else if not (can_advance_run_attempt_phase a.phase target)
    then err (run_attempt_state (illegal_phase a.phase target))
    else if target == RunAttemptPhase.terminal
    then err (run_attempt_state needs_finish)
    else ok (record a { phase = target })

-- the assignments of `finish_run_attempt`
unfoldable pub closed : ℕ → RunAttemptStatus → String → RunAttempt → RunAttempt
closed now status reason a = record a {
  phase = RunAttemptPhase.terminal;
  status = status;
  terminal_reason = some (strip reason);
  completed_at = some now;
  telemetry = record (a.telemetry) {
    termination = some (record { status = status; reason = strip reason });
  };
}

unfoldable pub finish_run_attempt : ℕ → RunAttemptStatus → String → RunAttempt → Result RunAttempt
unfolding closed
finish_run_attempt now status reason a =
    if is_empty (strip reason)
    then err (run_attempt_state reason_required)
    else if status == RunAttemptStatus.running
    then err (run_attempt_state still_running)
    else ok (closed now status reason a)
