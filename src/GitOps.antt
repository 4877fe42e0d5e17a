-- ===== src/GitOps.antt =====
-- core/git_ops/{branch,pull_request}.py: a Request's branch and pull request on GitHub.
--
-- The GitHub REST client, the encryption of tokens, `parse_repo_url` (a regular expression), the
-- text of a UUID and the composed body (core/git_ops/pr_body.py) are arguments, `GitEnv`. A reply of
-- the remote is whatever the client's function gives.
pub mod Branch
pub mod PullRequest
pub mod Effect
