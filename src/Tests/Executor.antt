-- ===== src/Tests/Executor.antt =====
-- The theorems on the executor, applied to an LLM that writes one file and then sums up.
use bsnexus.Domain.{
  RequestStatus, RunAttemptPhase, RunAttemptStatus, WorkStepStatus, deliverable_status_eq,
  deliverable_type_eq, proof_aspect_status_eq, proof_aspect_type_eq, proof_state_eq,
  request_status_eq, run_attempt_phase_eq, run_attempt_status_eq, work_plan_status_eq,
  work_step_status_eq,
}
use bsnexus.Effects.{Result, err, greenfield_state, illegal_step, ok}
use bsnexus.Executor.Attempt.Methods.{Leaves, before}
use bsnexus.Executor.Defs.{Llm, Phase, ToolCall, Toolbox, tool_output, user_says}
use bsnexus.Executor.Dispatch.{Executor, dispatch_run_attempt, injected, looked_up}
use bsnexus.Executor.Dispatch.Settles.{Dispatched, dispatch_settles}
use bsnexus.Executor.Dispatch.Unconfigured.{FailedFrom, unconfigured_fails, unconfigured_raises}
use bsnexus.Executor.Handoff.{generate_handoff_record}
use bsnexus.Executor.Handoff.Usable.{IsUsable, generated-IsUsable}
use bsnexus.Executor.Retry.{Env, Machine, work_and_retry}
use bsnexus.Executor.Retry.Life.{work_and_retry-EndsWell}
use bsnexus.Executor.Work.Turns.{EndsWell}
use bsnexus.Executor.World.{DispatchRunAttemptResult, World}
use bsnexus.Json.{Fields, Value}
use bsnexus.Models.{Request, RunAttempt}
use bsnexus.Prelude.{
  Option, String, [], false, int_eq, nat_eq, none, option_eq, refl, some, string_eq, suc, true,
  zero, ◌∷◌, ◌≡◌,
}
use bsnexus.RunAttempts.Defs.{create_run_attempt}
use bsnexus.StateMachines.{can_transition_work_step}
use bsnexus.Store.{
  decision_has_id, deliverable_has_id, get, project_has_id, request_has_id, run_attempt_has_id,
  work_step_has_id,
}
use bsnexus.Tests.Data.{identity, request_in, step_in, store_in}
use bsnexus.Tests.Verifier.{calm_host}

abbrev write_call : ToolCall
write_call = record {
  name = "file_write";
  call_id = "c1";
  arguments = some (Fields.field "path" (Value.str "a.py") Fields.end);
}

-- the first reply calls a tool, the second is the summary
abbrev writing_llm : Llm
writing_llm zero messages offered = ok (record { output_ref = none; tool_calls = write_call ∷ [] })
writing_llm (suc n) messages offered = ok (record { output_ref = some "done"; tool_calls = [] })

abbrev calm_tools : Toolbox
calm_tools = record {
  invoke = λ i name arguments. tool_output "ok";
  declared = λ i name arguments. none;
}

abbrev calm_machine : Machine
calm_machine = record { venv_host = calm_host; hosts = λ i. calm_host; heuristic = [] }

abbrev pub words : Value → String
words v = "0"

abbrev pub sample_executor : Env
sample_executor = record {
  lower = identity;
  str_of = words;
  loads = λ t. none;
  digest = λ fields. "h";
  summary_of = λ name fields. "s";
  sort_names = λ names. names;
  llm = writing_llm;
  tools = calm_tools;
  has_workspace = true;
  machine = λ n. calm_machine;
  prompt = λ seed. user_says "Add login" ∷ [];
  feedback = λ failures left. "fix";
  request_text = λ ph. "hand over";
  publish = ok tt;
}

abbrev pub world_in : WorkStepStatus → World
world_in st = record {
  store = store_in RequestStatus.running (step_in 4 st ∷ []);
  tool_events = [];
  next_event = 10;
  trips = 0;
  queue = [];
}

abbrev pub sample_request : Request
sample_request = request_in RequestStatus.running

abbrev sample_run : Result (Option DispatchRunAttemptResult) × World
sample_run =
    dispatch_run_attempt sample_executor 1 sample_request (step_in 4 WorkStepStatus.pending)
      (injected none none) none (world_in WorkStepStatus.pending)

dispatch_settles_example : Leaves sample_run (
    Dispatched sample_executor 1 sample_request
      (step_in 4 WorkStepStatus.pending)
      (before (world_in WorkStepStatus.pending))
      []
      404
      4)
unfolding get can_transition_work_step
dispatch_settles_example =
    dispatch_settles sample_executor 1 sample_request (step_in 4 WorkStepStatus.pending)
      (injected none none) none (world_in WorkStepStatus.pending) (step_in 4 WorkStepStatus.pending)
      refl refl refl refl

abbrev sample_phase : Phase
sample_phase = record {
  session = record { attempt = create_run_attempt 1 0 4 "api" none; events = []; next_id = 10 };
  messages = [];
  written = "a.py" ∷ [];
  contract = none;
  final_text = "";
  trips = 0;
}

abbrev pub no_executor : Executor
no_executor = looked_up none false

unconfigured_fails_example :
    Leaves
      (dispatch_run_attempt sample_executor 1 sample_request
        (step_in 4 WorkStepStatus.pending)
        no_executor
        none
        (world_in WorkStepStatus.pending))
      (FailedFrom sample_executor 1 sample_request
        (step_in 4 WorkStepStatus.pending)
        (world_in WorkStepStatus.pending))
unfolding get can_transition_work_step
unconfigured_fails_example =
    unconfigured_fails sample_executor 1 sample_request (step_in 4 WorkStepStatus.pending)
      no_executor none (world_in WorkStepStatus.pending) (step_in 4 WorkStepStatus.pending) refl
      refl refl

generated-IsUsable_example :
    IsUsable
      ("a.py" ∷ [])
      (generate_handoff_record identity words (λ t. none) writing_llm "hand over" sample_phase).0
generated-IsUsable_example =
    generated-IsUsable identity words (λ t. none) writing_llm "hand over" sample_phase

unconfigured_raises_example :
    let done =
      dispatch_run_attempt sample_executor 1 sample_request
        (step_in 4 WorkStepStatus.running)
        no_executor
        none
        (world_in WorkStepStatus.running) in
    let left = create_run_attempt 100 50 4 "unconfigured" none in
    (done.0 ≡ err (greenfield_state (illegal_step WorkStepStatus.running WorkStepStatus.running)))
    × (done.1.store.steps ≡ step_in 4 WorkStepStatus.running ∷ [])
    × (done.1.store.attempts ≡ left ∷ [])
    × (left.status ≡ RunAttemptStatus.running)
unfolding get can_transition_work_step
unconfigured_raises_example =
    unconfigured_raises sample_executor 1 sample_request (step_in 4 WorkStepStatus.running)
      no_executor none (world_in WorkStepStatus.running) (step_in 4 WorkStepStatus.running) refl
      refl refl

abbrev working_attempt : RunAttempt
working_attempt = record (create_run_attempt 1 0 4 "api" none) { phase = RunAttemptPhase.work }

abbrev working_phase : Phase
working_phase = record sample_phase {
  session = record { attempt = working_attempt; events = []; next_id = 10 };
}

work_and_retry-EndsWell_example : EndsWell 100 (work_and_retry sample_executor 50 working_phase)
unfolding create_run_attempt
work_and_retry-EndsWell_example =
    work_and_retry-EndsWell sample_executor 50 working_phase (record { runs = refl; works = refl })
