-- ===== src/GitOps/Branch.antt =====
-- core/git_ops/branch.py, and the interface to core/github/client.py.
use bsnexus.Domain.{
  deliverable_status_eq, deliverable_type_eq, proof_aspect_status_eq, proof_aspect_type_eq,
  proof_state_eq, request_status_eq, run_attempt_phase_eq, run_attempt_status_eq,
  work_plan_status_eq, work_step_status_eq,
}
use bsnexus.Effects.{Error, Result, branch_op, err, ok}
use bsnexus.Models.{Project, Request}
use bsnexus.Prelude.{
  Bool, List, Option, String, false, has_text, if◌then◌else◌, is_empty, join_text, nat_eq, none,
  not, option_eq, or_empty, some, string_eq, strip, true, ℕ, ◌==◌, ◌||◌,
}
use bsnexus.Store.{
  decision_has_id, deliverable_has_id, project_has_id, request_has_id, run_attempt_has_id,
  work_step_has_id,
}

pub data GithubKind : Type 0 where
  auth_error not_found validation_error github_error : GithubKind

-- `GithubError` and its subclasses
pub record GithubFault : Type 0 where
  pub kind : GithubKind
  pub status_code : Option ℕ
  pub message : String

pub data Reply (A : Type 0) : Type 0 where
  replied : A → Reply A
  failed_with : GithubFault → Reply A

pub record Pull : Type 0 where
  pub number : ℕ
  pub html_url : String

pub record GitEnv : Type 0 where
  pub get_ref : String → String → String → Reply (Option String)
  pub create_ref : String → String → String → String → Reply String
  pub list_pulls : String → String → String → Reply (List Pull)
  pub update_pull : String → String → ℕ → String → Reply (Unit {0})
  pub create_pull : String → String → String → String → String → String → Reply Pull
  pub decrypt_value : String → Result String
  pub parse_repo_url : String → Option (String × String)
  pub uuid_text : ℕ → String
  pub compose_pr_body : Request → Result String

pub record BranchInfo : Type 0 where
  pub name : String
  pub sha : String
  pub base_branch : String
  pub repo_url : String
  pub created : Bool

abbrev pub build_request_branch_name : GitEnv → ℕ → String
build_request_branch_name env id = join_text "bsnexus/req-" (env.uuid_text id)

-- `(project.github_branch or "main").strip() or "main"`
unfoldable pub base_branch_of : Project → String
base_branch_of project =
    let b =
      strip (if has_text project.github_branch then or_empty project.github_branch else "main") in
    if is_empty b then "main" else b

-- the two `except` clauses
abbrev pub branch_fault : GithubFault → Error
branch_fault f = elim (f.kind) [
  | not_found ↦ branch_op "github_unavailable"
  | _ ↦
      if f.status_code == some 401 || f.status_code == some 403
      then branch_op "github_auth"
      else branch_op "github_unavailable"
]

abbrev made : BranchInfo → Reply String → Result BranchInfo
made info (failed_with f) = err (branch_fault f)
made info (replied sha) = ok (record info { sha = sha })

abbrev from_base : GitEnv → String → String → BranchInfo → Reply (Option String) → Result BranchInfo
from_base env owner repo info (failed_with f) = err (branch_fault f)
from_base env owner repo info (replied none) = err (branch_op "base_branch_not_found")
from_base env owner repo info (replied (some sha)) =
    made (record info { created = true }) (env.create_ref owner repo info.name sha)

abbrev on_existing :
    GitEnv → String → String → BranchInfo → Reply (Option String) → Result BranchInfo
on_existing env owner repo info (failed_with f) = err (branch_fault f)
on_existing env owner repo info (replied (some sha)) = ok (record info { sha = sha })
on_existing env owner repo info (replied none) =
    from_base env owner repo info (env.get_ref owner repo info.base_branch)

abbrev with_token : GitEnv → Request → Project → String × String → Result String → Result BranchInfo
with_token env request project (owner, repo) (err e) = err e
with_token env request project (owner, repo) (ok token) =
    let name = build_request_branch_name env request.id in
    on_existing env owner repo
      (record {
        name = name;
        sha = "";
        base_branch = base_branch_of project;
        repo_url = or_empty project.github_repo_url;
        created = false;
      })
      (env.get_ref owner repo name)

abbrev with_url : GitEnv → Request → Project → Option (String × String) → Result BranchInfo
with_url env request project none = err (branch_op "invalid_repo_url")
with_url env request project (some place) =
    with_token env request project place
      (env.decrypt_value (or_empty project.github_token_encrypted))

unfoldable pub ensure_request_branch : GitEnv → Request → Option Project → Result BranchInfo
unfolding base_branch_of
ensure_request_branch env request none = err (branch_op "repo_not_bound")
ensure_request_branch env request (some project) =
    if not (has_text project.github_repo_url)
    then err (branch_op "repo_not_bound")
    else if not (has_text project.github_token_encrypted)
    then err (branch_op "missing_token")
    else with_url env request project (env.parse_repo_url (or_empty project.github_repo_url))
