-- ===== src/Tests/Verifier.antt =====
-- The theorems on the verifier, applied to a machine on which every command ends well.
use bsnexus.Domain.{
  ProofAspectStatus, ProofAspectType, ProofState, deliverable_status_eq, deliverable_type_eq,
  proof_aspect_status_eq, proof_aspect_type_eq, proof_state_eq, request_status_eq,
  run_attempt_phase_eq, run_attempt_status_eq, work_plan_status_eq, work_step_status_eq,
}
use bsnexus.Effects.{ok}
use bsnexus.Models.{VerificationAspect}
use bsnexus.Prelude.{
  Bool, List, [], all, false, int_eq, nat_eq, none, not, option_eq, pos, some, string_eq, true, ℕ,
  ◌&&◌, ◌==◌, ◌∷◌, ◌≡◌,
}
use bsnexus.Store.{
  decision_has_id, deliverable_has_id, project_has_id, request_has_id, run_attempt_has_id,
  work_step_has_id,
}
use bsnexus.Tests.Data.{exit_words}
use bsnexus.Verification.Rollup.{is_clear, rollup_exact}
use bsnexus.Verification.Run.{blocking_of, rollup_proof_state, some_status}
use bsnexus.Verification.Runners.{Host}
use bsnexus.Verification.Specs.{AspectSpec}

abbrev pub calm_host : Host
calm_host = record {
  run_command = λ i cmd t. ok (record { exit_code = some (pos 0); output = "" });
  sandbox_exec =
      λ i cmd t. ok (record { timed_out = false; exit_code = pos 0; stdout = ""; stderr = "" });
  sandboxed = true;
  has_judge = true;
  judge_criteria = λ cs. ok (ProofAspectStatus.passed, "fine");
  has_docker = false;
  has_pyproject = true;
  module_name = none;
  sys_executable = "python3";
  tmp_venv = "/tmp/venv";
  docker_tag = "tag";
  shlex_join = λ parts. "cmd";
  exit_text = exit_words;
  count_text = λ n. "1";
  error_text = λ e. "e";
  smoke_hint = λ a b. "";
}

abbrev sample_aspect : ℕ → ProofAspectStatus → Bool → VerificationAspect
sample_aspect i st blocking = record {
  id = i;
  deliverable_id = 20;
  aspect_type = ProofAspectType.code_test;
  status = st;
  blocking = blocking;
  result_summary = none;
  exit_code = none;
}

abbrev two_aspects : List VerificationAspect
two_aspects =
    sample_aspect 1 ProofAspectStatus.passed true
    ∷ sample_aspect 2 ProofAspectStatus.failed false
    ∷ []

-- a failed aspect that does not block
rollup_exact_example :
    ((rollup_proof_state two_aspects == ProofState.verified) ≡ (
      all is_clear (blocking_of two_aspects)
      && some_status ProofAspectStatus.passed (blocking_of two_aspects)))
    × ((rollup_proof_state two_aspects == ProofState.verification_failed) ≡ (
        not (some_status ProofAspectStatus.error (blocking_of two_aspects))
        && some_status ProofAspectStatus.failed (blocking_of two_aspects)))
rollup_exact_example = rollup_exact two_aspects

abbrev pub clear_spec : AspectSpec
clear_spec = record {
  aspect_type = ProofAspectType.llm_judge;
  commands = [];
  required_refs = "clear" ∷ [];
  timeout_s = 60;
  blocking = true;
}
