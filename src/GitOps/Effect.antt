-- ===== src/GitOps/Effect.antt =====
-- What `open_request_pr` of core/git_ops/pull_request.py can write: nothing but the two PR columns of
-- its request.
use bsnexus.Domain.{
  deliverable_status_eq, deliverable_type_eq, proof_aspect_status_eq, proof_aspect_type_eq,
  proof_state_eq, request_status_eq, run_attempt_phase_eq, run_attempt_status_eq,
  work_plan_status_eq, work_step_status_eq,
}
use bsnexus.Effects.{Result, err, ok, pull_request_op}
use bsnexus.GitOps.Branch.{
  BranchInfo, GitEnv, GithubKind, Pull, Reply, auth_error, failed_with, replied,
}
use bsnexus.GitOps.PullRequest.{
  PullRequestInfo, among, create_new, for_project, info_of, open_request_pr, opened, refresh, stamp,
  with_body, with_branch, with_client, with_place, with_pulls,
}
use bsnexus.Models.{Project, Request}
use bsnexus.Prelude.{
  Bool, List, Option, String, [], false, has_text, if◌then◌else◌, inl, inr, nat_eq, none, not,
  option_eq, or_empty, refl, some, string_eq, true, ◌∷◌, ◌≡◌, ◌⊎◌,
}
use bsnexus.Store.{
  Store, decision_has_id, deliverable_has_id, get, project_has_id, request_has_id,
  run_attempt_has_id, update, work_step_has_id,
}

-- the store is as before, or the request's PR columns are set
abbrev pub IsStamped : Request → Store → Store → Type 0
IsStamped r s t =
    (t ≡ s) ⊎ ((pr : Pull) × (t ≡ record s { requests = update r.id (stamp pr) s.requests }))

module _ (lower : String → String) (env : GitEnv) (r : Request) where
  refresh-IsStamped :
      (b : BranchInfo) (pr : Pull) (reply : Reply (Unit {0})) (s : Store)
      → IsStamped r s (refresh lower env r b pr reply s).1
  refresh-IsStamped b pr (replied u) s = inr (pr, refl)
  refresh-IsStamped b pr (failed_with f) s = by_kind (f.kind)
    where
      by_kind :
          (k : GithubKind)
          → IsStamped r s
              (elim k as (λ _. Result PullRequestInfo × Store) [
                | auth_error ↦ (err (pull_request_op "github_auth"), s)
                | _ ↦ (
                  ok (info_of r b pr false),
                  record s { requests = update r.id (stamp pr) s.requests },
                )
              ]).1
      by_kind auth_error = inl refl
      by_kind _ = inr (pr, refl)

  opened-IsStamped :
      (b : BranchInfo) (reply : Reply Pull) (s : Store)
      → IsStamped r s (opened lower env r b reply s).1
  opened-IsStamped b (failed_with f) s = inl refl
  opened-IsStamped b (replied pr) s = inr (pr, refl)

  create-IsStamped :
      (b : BranchInfo) (place : String × String) (body : String) (title : Result String) (s : Store)
      → IsStamped r s (create_new lower env r b place body title s).1
  create-IsStamped b (owner, repo) body (err e) s = inl refl
  create-IsStamped b (owner, repo) body (ok title) s = opened-IsStamped b _ s

  among-IsStamped :
      (b : BranchInfo) (place : String × String) (body : String) (pulls : List Pull) (s : Store)
      → IsStamped r s (among lower env r b place body pulls s).1
  among-IsStamped b (owner, repo) body [] s = create-IsStamped b (owner, repo) body _ s
  among-IsStamped b (owner, repo) body (pr ∷ rest) s = refresh-IsStamped b pr _ s

  body-IsStamped :
      (b : BranchInfo) (place : String × String) (pulls : List Pull) (body : Result String)
      (s : Store)
      → IsStamped r s (with_body lower env r b place pulls body s).1
  body-IsStamped b place pulls (err e) s = inl refl
  body-IsStamped b place pulls (ok body) s = among-IsStamped b place body pulls s

  pulls-IsStamped :
      (b : BranchInfo) (place : String × String) (reply : Reply (List Pull)) (s : Store)
      → IsStamped r s (with_pulls lower env r b place reply s).1
  pulls-IsStamped b place (failed_with f) s = inl refl
  pulls-IsStamped b place (replied pulls) s = body-IsStamped b place pulls _ s

  client-IsStamped :
      (p : Project) (b : BranchInfo) (place : String × String) (token : Result String) (s : Store)
      → IsStamped r s (with_client lower env r p b place token s).1
  client-IsStamped p b (owner, repo) (err e) s = inl refl
  client-IsStamped p b (owner, repo) (ok token) s = pulls-IsStamped b (owner, repo) _ s

  branch-IsStamped :
      (p : Project) (place : String × String) (branch : Result BranchInfo) (s : Store)
      → IsStamped r s (with_branch lower env r p place branch s).1
  branch-IsStamped p place (err e) s = inl refl
  branch-IsStamped p place (ok branch) s = by_created branch.created
    where
      by_created :
          (c : Bool)
          → IsStamped r s
              (if c
                then (err (pull_request_op "no_request_branch"), s)
                else with_client lower env r p branch place
                    (env.decrypt_value (or_empty p.github_token_encrypted))
                    s).1
      by_created true = inl refl
      by_created false = client-IsStamped p branch place _ s

  place-IsStamped :
      (p : Project) (place : Option (String × String)) (s : Store)
      → IsStamped r s (with_place lower env r p place s).1
  place-IsStamped p none s = inl refl
  place-IsStamped p (some place) s = branch-IsStamped p place _ s

  project-IsStamped :
      (p : Option Project) (s : Store) → IsStamped r s (for_project lower env r p s).1
  project-IsStamped none s = inl refl
  project-IsStamped (some p) s =
      by_binding (has_text p.github_repo_url) (has_text p.github_token_encrypted)
    where
      by_binding :
          (u t : Bool)
          → IsStamped r s
              (if not u
                then (err (pull_request_op "repo_not_bound"), s)
                else if not t
                then (err (pull_request_op "missing_token"), s)
                else with_place lower env r p (env.parse_repo_url (or_empty p.github_repo_url)) s).1
      by_binding false t = inl refl
      by_binding true false = inl refl
      by_binding true true = place-IsStamped p _ s

  -- Whatever GitHub replies, the call writes nothing but the PR number and URL of its request.
  pub open-IsStamped : (s : Store) → IsStamped r s (open_request_pr lower env r s).1
  unfolding open_request_pr
  open-IsStamped s = project-IsStamped (get r.project_id s.projects) s
