-- ===== src/Tests/Data.antt =====
-- A project, a Request, its steps and a GitHub that answers.
use bsnexus.Domain.{
  DeliverableStatus, DeliverableType, ProofState, RequestStatus, WorkPlanCreatedBy, WorkPlanStatus,
  WorkStepStatus,
}
use bsnexus.Effects.{ok}
use bsnexus.GitOps.Branch.{GitEnv, replied}
use bsnexus.Models.{
  Decision, Deliverable, Project, Request, WorkPlan, WorkStep, WorkStepDraft, server_managed,
}
use bsnexus.Prelude.{List, Option, String, [], none, some, true, ℕ, ℤ, ◌∷◌}
use bsnexus.Store.{Store}

abbrev pub sample_env : GitEnv
sample_env = record {
  get_ref = λ a b c. replied (some "abc");
  create_ref = λ a b c d. replied "def";
  list_pulls = λ a b c. replied [];
  update_pull = λ a b n t. replied tt;
  create_pull = λ a b c d e f. replied (record { number = 12; html_url = "https://x/12" });
  decrypt_value = λ t. ok t;
  parse_repo_url = λ u. some ("o", "r");
  uuid_text = λ n. "7";
  compose_pr_body = λ r. ok "body";
}

abbrev pub identity : String → String
identity t = t

abbrev pub exit_words : Option ℤ → String
exit_words code = "1"

abbrev pub sample_project : Project
sample_project = record {
  id = 2;
  tenant_id = 1;
  workspace_type = server_managed;
  workspace_dir = none;
  github_repo_url = none;
  github_branch = none;
  github_token_encrypted = none;
}

abbrev pub bound_project : Project
bound_project = record sample_project {
  github_repo_url = some "https://github.com/o/r";
  github_token_encrypted = some "token";
}

abbrev pub request_in : RequestStatus → Request
request_in st = record {
  id = 7;
  tenant_id = 1;
  project_id = 2;
  intent = "Add login";
  status = st;
  current_step_id = none;
  pr_number = none;
  pr_url = none;
}

abbrev pub draft_named : String → WorkStepDraft
draft_named name = record {
  name = name;
  objective = name;
  expected_outputs = [];
  verifier_policy = none;
}

abbrev pub sample_plan : WorkPlan
sample_plan = record {
  id = 3;
  request_id = 7;
  version = 1;
  steps = draft_named "login" ∷ [];
  created_by = WorkPlanCreatedBy.system;
  status = WorkPlanStatus.active;
}

abbrev pub step_in : ℕ → WorkStepStatus → WorkStep
step_in i st = record {
  id = i;
  request_id = 7;
  plan_id = 3;
  draft = draft_named "login";
  status = st;
  attempt_count = 1;
}

abbrev pub deliverable_in : ℕ → ProofState → Deliverable
deliverable_in i proof = record {
  id = i;
  tenant_id = 1;
  project_id = 2;
  request_id = some 7;
  work_step_id = some 4;
  type = DeliverableType.code;
  status = DeliverableStatus.verifying;
  proof_state = proof;
  title = "";
  summary = none;
  artifact_refs = [];
  risk_summary = none;
  created_at = i;
}

abbrev pub decision_on : ℕ → Decision
decision_on i = record {
  id = i;
  tenant_id = 1;
  project_id = 2;
  request_id = some 7;
  work_step_id = some 4;
  question = "?";
  options = "retry" ∷ "reframe" ∷ [];
  blocking = true;
  resolved_at = some 5;
  resolution = some "retry";
  guidance = none;
}

-- the Request and the steps in these statuses
abbrev pub store_in : RequestStatus → List WorkStep → Store
store_in st steps = record {
  projects = sample_project ∷ [];
  requests = request_in st ∷ [];
  plans = sample_plan ∷ [];
  steps = steps;
  attempts = [];
  deliverables = deliverable_in 20 ProofState.verification_failed ∷ [];
  decisions = [];
  aspects = [];
  next_id = 100;
  now = 50;
}
