-- ===== src/Verification/Runners.antt =====
-- core/verification.py: the runners of one aspect.
--
-- The machine is the argument `Host`: what each command does, whether docker is there, the module
-- name that `_pyproject_module_name` reads off the workspace, the judge's reply, `shlex.join` and
-- `str` of an exit code. A command's reply may depend on its place among the aspect's commands.
use bsnexus.Domain.{
  ProofAspectStatus, deliverable_status_eq, deliverable_type_eq, proof_aspect_status_eq,
  proof_aspect_type_eq, proof_state_eq, request_status_eq, run_attempt_phase_eq,
  run_attempt_status_eq, work_plan_status_eq, work_step_status_eq,
}
use bsnexus.Effects.{Error, Result, err, ok}
use bsnexus.Prelude.{
  Bool, List, Option, String, [], if◌then◌else◌, int_eq, is_empty, join_text, length, nat_eq, none,
  option_eq, pos, some, string_eq, ℕ, ℤ, ◌&&◌, ◌++◌, ◌+◌, ◌==◌, ◌∷◌,
}
use bsnexus.Store.{
  decision_has_id, deliverable_has_id, project_has_id, request_has_id, run_attempt_has_id,
  work_step_has_id,
}
use bsnexus.Verification.Specs.{AspectSpec}

-- how `_run_command` ends; `none` for the exit code is a timeout
pub record CommandEnd : Type 0 where
  pub exit_code : Option ℤ
  pub output : String

-- `SandboxSession.exec`
pub record SandboxEnd : Type 0 where
  pub timed_out : Bool
  pub exit_code : ℤ
  pub stdout : String
  pub stderr : String

pub record Outcome : Type 0 where
  pub status : ProofAspectStatus
  pub summary : String
  pub exit_code : Option ℤ

pub record Host : Type 0 where
  pub run_command : ℕ → List String → ℕ → Result CommandEnd
  pub sandbox_exec : ℕ → String → ℕ → Result SandboxEnd
  pub sandboxed : Bool
  pub has_judge : Bool
  pub judge_criteria : List String → Result (ProofAspectStatus × String)
  pub has_docker : Bool
  pub has_pyproject : Bool
  pub module_name : Option String
  pub sys_executable : String
  pub tmp_venv : String
  pub docker_tag : String
  pub shlex_join : List String → String
  pub exit_text : Option ℤ → String
  pub count_text : ℕ → String
  pub error_text : Error → String
  pub smoke_hint : String → String → String

abbrev pub venv_python_token : String
venv_python_token = "<venv_python>"

abbrev pub concat : List String → String
concat [] = ""
concat (t ∷ ts) = join_text t (concat ts)

-- `_resolve_command`
unfoldable pub resolve_command : Host → Option String → List String → List String
resolve_command host venv [] = []
resolve_command host venv (part ∷ parts) =
    (if part == venv_python_token
      then elim venv [ none ↦ host.sys_executable | some python ↦ python ]
      else part)
    ∷ resolve_command host venv parts

abbrev pub is_zero_exit : Option ℤ → Bool
is_zero_exit code = code == some (pos 0)

abbrev pub exit_line : Host → String → CommandEnd → String
exit_line host command result =
    concat
      ("`" ∷ command ∷ "` (exit " ∷ host.exit_text result.exit_code ∷ ")\n" ∷ result.output ∷ [])

-- `" && ".join(…)`
abbrev pub and_join : List String → String
and_join [] = ""
and_join (t ∷ []) = t
and_join (t ∷ u ∷ ts) = join_text t (join_text " && " (and_join (u ∷ ts)))

abbrev pub resolved_all : Host → Option String → List (List String) → List String
resolved_all host venv [] = []
resolved_all host venv (cmd ∷ cmds) =
    host.shlex_join (resolve_command host venv cmd) ∷ resolved_all host venv cmds

-- the loop of `_run_default_aspect`, from the `i`-th command on; `last` is `last_exit`
unfoldable pub run_default :
    Host → Option String → AspectSpec → ℕ → Option ℤ → List (List String) → Result Outcome
run_default host venv spec i last [] = ok (record {
  status = ProofAspectStatus.passed;
  summary = join_text (and_join (resolved_all host venv spec.commands)) " (exit 0)";
  exit_code = last;
})
run_default host venv spec i last (cmd ∷ cmds) =
    let resolved = resolve_command host venv cmd in
    let rest = run_default host venv spec (i + 1) (some (pos 0)) cmds in
    elim (host.run_command i resolved spec.timeout_s) [
      | err e ↦ err e
      | ok result ↦
          if is_zero_exit result.exit_code
          then rest
          else ok (record {
            status = ProofAspectStatus.failed;
            summary = exit_line host (host.shlex_join resolved) result;
            exit_code = result.exit_code;
          })
    ]

-- `_run_default_aspect`
unfoldable pub run_default_aspect : Host → Option String → AspectSpec → Result Outcome
run_default_aspect host venv spec = run_default host venv spec 0 (some (pos 0)) spec.commands

-- a shell entry `("sh", "-c", c)` runs as `c`, any other is quoted
unfoldable pub sandbox_command : Host → List String → String
unfolding resolve_command
sandbox_command host cmd = of_resolved (resolve_command host (some "python") cmd)
  where
    of_resolved : List String → String
    of_resolved (a ∷ b ∷ c ∷ []) =
        if a == "sh" && b == "-c" then c else host.shlex_join (a ∷ b ∷ c ∷ [])
    of_resolved parts = host.shlex_join parts

-- the loop of `_run_aspect_in_sandbox`
unfoldable pub run_sandbox :
    Host → AspectSpec → ℕ → Option ℤ → List String → List (List String) → Result Outcome
run_sandbox host spec i last done [] = ok (record {
  status = ProofAspectStatus.passed;
  summary = join_text (and_join done) " (exit 0)";
  exit_code = last;
})
run_sandbox host spec i last done (cmd ∷ cmds) =
    let command = sandbox_command host cmd in
    let rest = run_sandbox host spec (i + 1) (some (pos 0)) (done ++ command ∷ []) cmds in
    elim (host.sandbox_exec i command spec.timeout_s) [
      | err e ↦ err e
      | ok result ↦
          if result.timed_out
          then ok (record {
            status = ProofAspectStatus.failed;
            summary =
                concat (
                  "`" ∷ command ∷ "` timed out after " ∷ host.count_text spec.timeout_s ∷ "s" ∷ []);
            exit_code = none;
          })
          else if result.exit_code == pos 127
          then ok (record {
            status = ProofAspectStatus.skipped;
            summary =
                concat
                  ("`" ∷ command ∷ "`: command not found in the sandbox toolchain (skipped)" ∷ []);
            exit_code = some (pos 127);
          })
          else if result.exit_code == pos 0
          then rest
          else ok (record {
            status = ProofAspectStatus.failed;
            summary = exit_line host command (record {
              exit_code = some result.exit_code;
              output = two_chunks result.stdout result.stderr;
            });
            exit_code = some result.exit_code;
          })
    ]
  where
    two_chunks : String → String → String
    two_chunks out errors =
        if is_empty out
        then errors
        else if is_empty errors
        then out
        else concat (out ∷ "\n" ∷ errors ∷ [])

abbrev pub graded : Result (ProofAspectStatus × String) → Result Outcome
graded (err e) = err e
graded (ok (status, summary)) = ok (record { status = status; summary = summary; exit_code = none })

-- the outcome where the caller passed no judge
abbrev pub no_judge : Host → AspectSpec → Outcome
no_judge host spec = record {
  status = ProofAspectStatus.skipped;
  summary = concat (
      "llm_judge check ("
      ∷ host.count_text (length spec.required_refs)
      ∷ " criteria) — no judge executor available"
      ∷ []);
  exit_code = none;
}

-- `_run_llm_judge`
unfoldable pub run_llm_judge : Host → AspectSpec → Result Outcome
run_llm_judge host spec =
    if host.has_judge
    then graded (host.judge_criteria spec.required_refs)
    else ok (no_judge host spec)
