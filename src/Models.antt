-- ===== src/Models.antt =====
-- models/*.py: the rows of the tables, and the session's store of them.
--
-- A UUID is a number: the store's `next_id` is the next one that `uuid4` gives, so all that is used
-- of it is that it is new. A time stamp is a number, the store's `now`. An object of the ORM is
-- named by its row's `id`. Columns that no modelled code reads or writes are left out.
use bsnexus.Domain.{
  DeliverableStatus, DeliverableType, ProofAspectStatus, ProofAspectType, ProofState, RequestStatus,
  RunAttemptPhase, RunAttemptStatus, WorkPlanCreatedBy, WorkPlanStatus, WorkStepStatus,
}
use bsnexus.Json.{Fields, Value}
use bsnexus.Prelude.{Bool, List, Option, String, ℕ, ℤ}

pub data WorkspaceType : Type 0 where
  server_managed local_import github_connected : WorkspaceType

pub record Project : Type 0 where
  pub id : ℕ
  pub tenant_id : ℕ
  pub workspace_type : WorkspaceType
  pub workspace_dir : Option String
  pub github_repo_url : Option String
  pub github_branch : Option String
  pub github_token_encrypted : Option String

pub record Request : Type 0 where
  pub id : ℕ
  pub tenant_id : ℕ
  pub project_id : ℕ
  pub intent : String
  pub status : RequestStatus
  pub current_step_id : Option ℕ
  pub pr_number : Option ℕ
  pub pr_url : Option String

-- core/work_steps.py; `verifier_policy` is a JSON object
pub record WorkStepDraft : Type 0 where
  pub name : String
  pub objective : String
  pub expected_outputs : List String
  pub verifier_policy : Option Fields

pub record WorkPlan : Type 0 where
  pub id : ℕ
  pub request_id : ℕ
  pub version : ℕ
  pub steps : List WorkStepDraft
  pub created_by : WorkPlanCreatedBy
  pub status : WorkPlanStatus

pub record WorkStep : Type 0 where
  pub id : ℕ
  pub request_id : ℕ
  pub plan_id : ℕ
  pub draft : WorkStepDraft
  pub status : WorkStepStatus
  pub attempt_count : ℕ

pub record Deliverable : Type 0 where
  pub id : ℕ
  pub tenant_id : ℕ
  pub project_id : ℕ
  pub request_id : Option ℕ
  pub work_step_id : Option ℕ
  pub type : DeliverableType
  pub title : String
  pub summary : Option String
  pub artifact_refs : List String
  pub risk_summary : Option String
  pub status : DeliverableStatus
  pub proof_state : ProofState
  pub created_at : ℕ

pub record Decision : Type 0 where
  pub id : ℕ
  pub tenant_id : ℕ
  pub project_id : ℕ
  pub request_id : Option ℕ
  pub work_step_id : Option ℕ
  pub question : String
  pub options : List String
  pub blocking : Bool
  pub resolved_at : Option ℕ
  pub resolution : Option String
  pub guidance : Option String

pub record VerificationAspect : Type 0 where
  pub id : ℕ
  pub deliverable_id : ℕ
  pub aspect_type : ProofAspectType
  pub status : ProofAspectStatus
  pub blocking : Bool
  pub result_summary : Option String
  pub exit_code : Option ℤ

-- an entry of `telemetry["ignored_llm_system_fields"]`
pub record IgnoredFields : Type 0 where
  pub phase : RunAttemptPhase
  pub fields : List String

-- an entry of `telemetry["repetition_nudges"]`
pub record Nudge : Type 0 where
  pub round_index : ℕ
  pub tool_name : String
  pub args_hash : String
  pub message : String

pub record Termination : Type 0 where
  pub status : RunAttemptStatus
  pub reason : String

-- The JSON object `RunAttempt.telemetry` (`{}` where it is null). A phase that has no entry in
-- `phase_rounds` reads as 0 everywhere, so that table is a function.
pub record Telemetry : Type 0 where
  pub phase_rounds : RunAttemptPhase → ℕ
  pub ignored_llm_system_fields : List IgnoredFields
  pub repetition_nudges : List Nudge
  pub termination : Option Termination

-- the JSON object `RunAttempt.handoff`
pub record Handoff : Type 0 where
  pub summary : String
  pub files_touched : List String
  pub verification_state : String
  pub remaining : String
  pub blockers : String

pub record RunAttempt : Type 0 where
  pub id : ℕ
  pub work_step_id : ℕ
  pub executor_kind : String
  pub model : Option String
  pub phase : RunAttemptPhase
  pub status : RunAttemptStatus
  pub round_count : ℕ
  pub terminal_reason : Option String
  pub telemetry : Telemetry
  pub verification_contract : Option Value
  pub handoff : Option Handoff
  pub started_at : ℕ
  pub completed_at : Option ℕ

pub record ToolEvent : Type 0 where
  pub id : ℕ
  pub run_attempt_id : ℕ
  pub round_index : ℕ
  pub tool_name : String
  pub args_hash : String
  pub args_summary : Option String
  pub result_summary : Option String
  pub exit_code : Option ℤ
  pub writes : List String
