-- ===== src/Executor/Defs.antt =====
-- core/run_attempt_executor.py: the messages, the LLM and its tools as parameters, and the state of a
-- work phase.
--
-- `Llm` is `ExecutorClient.execute`: a reply may depend on how many calls went before, on the messages
-- and on whether tools are offered. `Toolbox` is the `ToolRegistry`: how a tool ends, and the contract
-- that is declared after it, may depend on how many events are logged.
use bsnexus.Domain.{
  RunAttemptStatus, deliverable_status_eq, deliverable_type_eq, proof_aspect_status_eq,
  proof_aspect_type_eq, proof_state_eq, request_status_eq, run_attempt_phase_eq,
  run_attempt_status_eq, work_plan_status_eq, work_step_status_eq,
}
use bsnexus.Effects.{
  Error, Result, branch_op, err, greenfield_state, lookup_error, ok, other_error, pull_request_op,
  run_attempt_state,
}
use bsnexus.Json.{Fields, Value, get_field}
use bsnexus.Prelude.{
  Bool, List, Option, String, [], contains, if◌then◌else◌, int_eq, join_text, nat_eq, option_eq,
  some, string_eq, ℕ, ◌++◌, ◌==◌, ◌||◌, ◌∷◌,
}
use bsnexus.RunAttempts.Defs.{Session, finish_run_attempt}
use bsnexus.Store.{
  decision_has_id, deliverable_has_id, project_has_id, request_has_id, run_attempt_has_id,
  work_step_has_id,
}

pub record ToolCall : Type 0 where
  pub name : String
  pub call_id : String
  pub arguments : Option Fields

pub data Message : Type 0 where
  system_says user_says assistant_says : String → Message
  assistant_calls : String → List ToolCall → Message
  tool_says : String → String → Message

-- `output_ref` and `tool_calls` of the result
pub record LlmReply : Type 0 where
  pub output_ref : Option String
  pub tool_calls : List ToolCall

abbrev pub Llm : Type 0
Llm = ℕ → List Message → Bool → Result LlmReply

-- `registry.invoke` returns, or raises ToolError or another exception
pub data ToolEnd : Type 0 where
  tool_output tool_error : String → ToolEnd
  tool_crash : Error → ToolEnd

pub record Toolbox : Type 0 where
  pub invoke : ℕ → String → Fields → ToolEnd
  pub declared : ℕ → String → Fields → Option Value

-- the locals of the work phase, and what it writes
pub record Phase : Type 0 where
  pub session : Session
  pub messages : List Message
  pub written : List String
  pub contract : Option Value
  pub final_text : String
  pub trips : ℕ

-- `_ToolLoopTerminated` carries its reason; `crashed` is any other exception
pub data WorkEnd : Type 0 where
  settled : Phase → WorkEnd
  terminated : String → Phase → WorkEnd
  crashed : Error → Phase → WorkEnd

abbrev pub max_work_loop_iterations : ℕ
max_work_loop_iterations = 80

abbrev pub max_no_work_nudges : ℕ
max_no_work_nudges = 2

abbrev pub max_aspect_retries : ℕ
max_aspect_retries = 2

abbrev pub max_aspect_retry_rounds : ℕ
max_aspect_retry_rounds = 10

abbrev pub aspect_retry_budget_floor : ℕ
aspect_retry_budget_floor = 12

abbrev pub max_budget_continuations : ℕ
max_budget_continuations = 3

abbrev pub soft_pressure_headroom : ℕ
soft_pressure_headroom = 4

abbrev pub summary_preview_chars : ℕ
summary_preview_chars = 500

-- `_BUDGET_TERMINATION_REASONS`
abbrev budget_termination_reasons : List String
budget_termination_reasons =
    "phase_round_budget_exceeded:work" ∷ "work_loop_iteration_cap"
    ∷ "catastrophic_round_budget_exceeded" ∷ "aspect_retry_budget_exhausted"
    ∷ "failed_nonconvergent:no_workspace_write" ∷ []

-- `_is_budget_termination`
unfoldable pub is_budget_termination : String → Bool
is_budget_termination reason = contains reason budget_termination_reasons

-- `exc.__class__.__name__`
abbrev pub class_name : Error → String
class_name (greenfield_state f) = "GreenfieldStateError"
class_name (run_attempt_state f) = "RunAttemptStateError"
class_name lookup_error = "LookupError"
class_name (branch_op r) = "BranchOpError"
class_name (pull_request_op r) = "PullRequestOpError"
class_name (other_error name) = name

-- `_invoke_tool_safely` without the call: the path that a file tool is given
abbrev pub is_file_tool : String → Bool
is_file_tool name = name == "file_write" || name == "file_edit"

abbrev path_of : Option Value → List String
path_of (some (Value.str p)) = p ∷ []
path_of _ = []

abbrev tool_writes : String → Fields → List String
tool_writes name arguments = if is_file_tool name then path_of (get_field "path" arguments) else []

-- `_invoke_tool_safely`
unfoldable pub invoke_tool_safely :
    Toolbox → ℕ → String → Fields → Result (String × ℕ × List String)
invoke_tool_safely tools i name arguments = elim (tools.invoke i name arguments) [
  | tool_output text ↦ ok (text, 0, tool_writes name arguments)
  | tool_error text ↦ ok (join_text "ERROR: " text, 1, tool_writes name arguments)
  | tool_crash e ↦ err e
]

-- `if path not in written_paths: written_paths.append(path)`
unfoldable pub add_written : List String → List String → List String
add_written written [] = written
add_written written (p ∷ ps) =
    add_written (if contains p written then written else written ++ p ∷ []) ps

-- the end of an attempt inside the loop: `finish_run_attempt`, then `raise _ToolLoopTerminated`
unfoldable pub end_attempt : ℕ → RunAttemptStatus → String → Phase → WorkEnd
end_attempt now status reason ph = elim (finish_run_attempt now status reason ph.session.attempt) [
  | err e ↦ crashed e ph
  | ok a ↦ terminated reason (record ph { session = record (ph.session) { attempt = a } })
]
