-- ===== src/GitOps/PullRequest.antt =====
-- core/git_ops/pull_request.py
use bsnexus.Domain.{
  deliverable_status_eq, deliverable_type_eq, proof_aspect_status_eq, proof_aspect_type_eq,
  proof_state_eq, request_status_eq, run_attempt_phase_eq, run_attempt_status_eq,
  work_plan_status_eq, work_step_status_eq,
}
use bsnexus.Effects.{Error, Exec, Result, branch_op, err, ok, other_error, pull_request_op}
use bsnexus.GitOps.Branch.{
  BranchInfo, GitEnv, GithubFault, Pull, Reply, auth_error, ensure_request_branch, failed_with,
  replied,
}
use bsnexus.Models.{Project, Request}
use bsnexus.Prelude.{
  Bool, List, Option, String, [], false, first_line, has_text, if◌then◌else◌, is_empty, is_infix,
  join_text, ltb, nat_eq, none, not, option_eq, or_empty, rstrip, some, string_eq, strip, take_text,
  text_length, true, ℕ, ◌&&◌, ◌==◌, ◌∷◌,
}
use bsnexus.Store.{
  Store, decision_has_id, deliverable_has_id, get, project_has_id, request_has_id,
  run_attempt_has_id, update, work_step_has_id,
}

pub record PullRequestInfo : Type 0 where
  pub request_id : ℕ
  pub repo_url : String
  pub branch_name : String
  pub base_branch : String
  pub pr_number : ℕ
  pub pr_url : String
  pub created : Bool

-- `_default_pr_title`; `[0]` of no lines raises IndexError
unfoldable pub default_pr_title : GitEnv → Request → Result String
unfolding strip first_line
default_pr_title env request =
    if is_empty request.intent
    then ok (shorten (join_text "Request " (env.uuid_text request.id)))
    else if is_empty (strip request.intent)
    then err (other_error "IndexError")
    else ok (shorten (first_line (strip request.intent)))
  where
    shorten : String → String
    shorten t = if ltb 70 (text_length t) then join_text (rstrip (take_text 67 t)) "..." else t

abbrev pub pr_fault : GithubFault → Error
pr_fault f = elim (f.kind) [
  | auth_error ↦ pull_request_op "github_auth"
  | _ ↦ pull_request_op "github_unavailable"
]

-- the `except` clauses around `create_pull`; `lower` is `str.lower`
abbrev pub create_fault : (String → String) → GithubFault → Error
create_fault lower f = elim (f.kind) [
  | auth_error ↦ pull_request_op "github_auth"
  | _ ↦
      if f.status_code == some 422 && is_infix "no commits" (lower f.message)
      then pull_request_op "empty_branch"
      else pull_request_op "github_unavailable"
]

-- `except BranchOpError as exc: raise PullRequestOpError(exc.reason, …)`
abbrev pub as_pr_error : Error → Error
as_pr_error (branch_op reason) = pull_request_op reason
as_pr_error e = e

abbrev pub stamp : Pull → Request → Request
stamp pr r = record r { pr_number = some pr.number; pr_url = some pr.html_url }

abbrev pub info_of : Request → BranchInfo → Pull → Bool → PullRequestInfo
info_of request branch pr created = record {
  request_id = request.id;
  repo_url = branch.repo_url;
  branch_name = branch.name;
  base_branch = branch.base_branch;
  pr_number = pr.number;
  pr_url = pr.html_url;
  created = created;
}

module _ (lower : String → String) (env : GitEnv) where
  -- the PATCH of an existing pull request's body: only a refused token raises
  abbrev pub refresh : Request → BranchInfo → Pull → Reply (Unit {0}) → Exec Store PullRequestInfo
  refresh request branch pr (failed_with f) s = elim (f.kind) [
    | auth_error ↦ (err (pull_request_op "github_auth"), s)
    | _ ↦ (
      ok (info_of request branch pr false),
      record s { requests = update request.id (stamp pr) s.requests },
    )
  ]
  refresh request branch pr (replied u) s = (
    ok (info_of request branch pr false),
    record s { requests = update request.id (stamp pr) s.requests },
  )

  abbrev pub opened : Request → BranchInfo → Reply Pull → Exec Store PullRequestInfo
  opened request branch (failed_with f) s = (err (create_fault lower f), s)
  opened request branch (replied pr) s = (
    ok (info_of request branch pr true),
    record s { requests = update request.id (stamp pr) s.requests },
  )

  abbrev pub create_new :
      Request → BranchInfo → String × String → String → Result String → Exec Store PullRequestInfo
  create_new request branch (owner, repo) body (err e) s = (err e, s)
  create_new request branch (owner, repo) body (ok title) s =
      opened request branch (env.create_pull owner repo title branch.name branch.base_branch body) s

  abbrev pub among :
      Request → BranchInfo → String × String → String → List Pull → Exec Store PullRequestInfo
  among request branch (owner, repo) body (pr ∷ rest) s =
      refresh request branch pr (env.update_pull owner repo pr.number body) s
  among request branch (owner, repo) body [] s =
      create_new request branch (owner, repo) body (default_pr_title env request) s

  abbrev pub with_body :
      Request
      → BranchInfo
      → String × String
      → List Pull
      → Result String
      → Exec Store PullRequestInfo
  with_body request branch place pulls (err e) s = (err e, s)
  with_body request branch place pulls (ok body) s = among request branch place body pulls s

  abbrev pub with_pulls :
      Request → BranchInfo → String × String → Reply (List Pull) → Exec Store PullRequestInfo
  with_pulls request branch place (failed_with f) s = (err (pr_fault f), s)
  with_pulls request branch place (replied pulls) s =
      with_body request branch place pulls (env.compose_pr_body request) s

  abbrev pub with_client :
      Request → Project → BranchInfo → String × String → Result String → Exec Store PullRequestInfo
  with_client request project branch (owner, repo) (err e) s = (err e, s)
  with_client request project branch (owner, repo) (ok token) s =
      with_pulls request branch (owner, repo) (env.list_pulls owner repo branch.name) s

  abbrev pub with_branch :
      Request → Project → String × String → Result BranchInfo → Exec Store PullRequestInfo
  with_branch request project place (err e) s = (err (as_pr_error e), s)
  with_branch request project place (ok branch) s =
      if branch.created
      then (err (pull_request_op "no_request_branch"), s)
      else with_client request project branch place
          (env.decrypt_value (or_empty project.github_token_encrypted)) s

  abbrev pub with_place : Request → Project → Option (String × String) → Exec Store PullRequestInfo
  with_place request project none s = (err (pull_request_op "invalid_repo_url"), s)
  with_place request project (some place) s =
      with_branch request project place (ensure_request_branch env request (some project)) s

  abbrev pub for_project : Request → Option Project → Exec Store PullRequestInfo
  for_project request none s = (err (pull_request_op "repo_not_bound"), s)
  for_project request (some project) s =
      if not (has_text project.github_repo_url)
      then (err (pull_request_op "repo_not_bound"), s)
      else if not (has_text project.github_token_encrypted)
      then (err (pull_request_op "missing_token"), s)
      else with_place request project (env.parse_repo_url (or_empty project.github_repo_url)) s

  unfoldable pub open_request_pr : Request → Exec Store PullRequestInfo
  unfolding get default_pr_title ensure_request_branch
  open_request_pr request s = for_project request (get request.project_id s.projects) s
