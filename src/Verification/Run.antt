-- ===== src/Verification/Run.antt =====
-- core/verification.py: the dispatch of one aspect, the roll-up, and `run_verification`.
use bsnexus.Contract.Defs.{VerificationContract, parse_verification_contract}
use bsnexus.Domain.{
  DeliverableStatus, ProofAspectStatus, ProofAspectType, ProofState, deliverable_status_eq,
  deliverable_type_eq, proof_aspect_status_eq, proof_aspect_type_eq, proof_state_eq,
  request_status_eq, run_attempt_phase_eq, run_attempt_status_eq, work_plan_status_eq,
  work_step_status_eq,
}
use bsnexus.Effects.{Result, err, ok}
use bsnexus.Json.{Value}
use bsnexus.Models.{Deliverable, VerificationAspect}
use bsnexus.Prelude.{
  Bool, List, Option, String, [], any, contains, false, filter, has_text, if◌then◌else◌, int_eq,
  join_text, length, nat_beq, nat_eq, none, not, option_eq, or_empty, pos, some, string_eq,
  take_text, true, ℕ, ◌&&◌, ◌+◌, ◌==◌, ◌||◌, ◌∷◌,
}
use bsnexus.Store.{
  decision_has_id, deliverable_has_id, project_has_id, request_has_id, run_attempt_has_id,
  work_step_has_id,
}
use bsnexus.Verification.Builds.{Venv, build_aspect_venv, run_docker_build, run_install_smoke}
use bsnexus.Verification.Runners.{
  Host, Outcome, run_default_aspect, run_llm_judge, run_sandbox, venv_python_token,
}
use bsnexus.Verification.Specs.{AspectSpec, specs_of_checks}

-- `_VENV_PYTHON_TOKEN in {part for cmd in spec.commands for part in cmd}`
abbrev pub has_token : AspectSpec → Bool
has_token spec = any (contains venv_python_token) spec.commands

abbrev pub needs_venv : AspectSpec → Bool
needs_venv spec = has_token spec || spec.aspect_type == ProofAspectType.declared_command

-- `_needs_aspect_venv`
abbrev pub needs_aspect_venv : List AspectSpec → Bool
needs_aspect_venv specs =
    any has_token specs || any (λ spec. spec.aspect_type == ProofAspectType.declared_command) specs

-- `_aspect_venv`: nothing is built where no aspect needs it, or in a sandbox
unfoldable pub aspect_venv : Host → List AspectSpec → Result Venv
aspect_venv host specs =
    if host.sandboxed || not (needs_aspect_venv specs)
    then ok (record { python = none; error = none })
    else build_aspect_venv host

-- `except Exception`: a runner that raises is an `error` of the aspect
abbrev pub guarded : Host → String → Result Outcome → Outcome
guarded host prefix (ok outcome) = outcome
guarded host prefix (err e) = record {
  status = ProofAspectStatus.error;
  summary = join_text prefix (host.error_text e);
  exit_code = none;
}

-- `_RUNNERS`
unfoldable pub runner : Host → Option String → AspectSpec → Result Outcome
runner host python spec = elim (spec.aspect_type) [
  | ProofAspectType.code_install_smoke ↦ run_install_smoke host spec
  | ProofAspectType.code_build ↦ run_docker_build host spec
  | _ ↦ run_default_aspect host python spec
]

abbrev no_python : Option String → Bool
no_python none = true
no_python (some p) = false

-- `venv_error or "verifier venv unavailable"`
abbrev venv_message : Option String → String
venv_message error = if has_text error then or_empty error else "verifier venv unavailable"

-- `_run_one_aspect`
unfoldable pub run_one_aspect : Host → Venv → AspectSpec → Outcome
run_one_aspect host venv spec =
    if spec.aspect_type == ProofAspectType.llm_judge
    then guarded host "judge runner crashed: " (run_llm_judge host spec)
    else if host.sandboxed
    then guarded host "sandbox runner crashed: "
        (run_sandbox host spec 0 (some (pos 0)) [] spec.commands)
    else if needs_venv spec && no_python venv.python
    then record {
      status = ProofAspectStatus.error;
      summary = venv_message venv.error;
      exit_code = none;
    }
    else guarded host "runner crashed: " (runner host venv.python spec)

-- The roll-up reads the statuses of the blocking aspects alone.
abbrev pub blocking_of : List VerificationAspect → List VerificationAspect
blocking_of aspects = filter (λ a. a.blocking) aspects

abbrev pub some_status : ProofAspectStatus → List VerificationAspect → Bool
some_status st aspects = any (λ a. a.status == st) aspects

unfoldable pub rollup_proof_state : List VerificationAspect → ProofState
rollup_proof_state aspects =
    let blocking = blocking_of aspects in
    if nat_beq (length aspects) 0
    then ProofState.human_review_required
    else if nat_beq (length blocking) 0
    then ProofState.human_review_required
    else if some_status ProofAspectStatus.error blocking
    then ProofState.human_review_required
    else if some_status ProofAspectStatus.failed blocking
    then ProofState.verification_failed
    else if any (λ a. a.status == ProofAspectStatus.queued || a.status == ProofAspectStatus.running)
        blocking
    then ProofState.verifying
    else if some_status ProofAspectStatus.passed blocking
    then ProofState.verified
    else ProofState.human_review_required

-- the row of a spec after its aspect has run; `hosts i` is the machine during the `i`-th aspect
abbrev pub aspect_row : ℕ → ℕ → AspectSpec → Outcome → VerificationAspect
aspect_row new_id deliverable spec outcome = record {
  id = new_id;
  deliverable_id = deliverable;
  aspect_type = spec.aspect_type;
  status = outcome.status;
  blocking = spec.blocking;
  result_summary = some (take_text 4000 outcome.summary);
  exit_code = outcome.exit_code;
}

unfoldable pub run_aspects :
    (ℕ → Host) → Venv → ℕ → ℕ → ℕ → List AspectSpec → List VerificationAspect
run_aspects hosts venv i new_id deliverable [] = []
run_aspects hosts venv i new_id deliverable (spec ∷ specs) =
    aspect_row new_id deliverable spec (run_one_aspect (hosts i) venv spec)
    ∷ run_aspects hosts venv (i + 1) (new_id + 1) deliverable specs

abbrev pub skipped_judge : VerificationAspect → Bool
skipped_judge a =
    a.aspect_type == ProofAspectType.llm_judge && a.status == ProofAspectStatus.skipped

-- the roll-up with the cap for a judge check that did not run
unfoldable pub final_proof_state : List VerificationAspect → ProofState
final_proof_state aspects =
    let state = rollup_proof_state aspects in
    if state == ProofState.verified && any skipped_judge aspects
    then ProofState.human_review_required
    else state

-- What a run leaves: the deliverable, its aspects, and the proof states that were flushed, which any
-- open reader sees, in order.
pub record Verified : Type 0 where
  pub deliverable : Deliverable
  pub aspects : List VerificationAspect
  pub flushed : List ProofState

abbrev pub concluded : Deliverable → List VerificationAspect → Verified
concluded d aspects =
    let state = final_proof_state aspects in
    record {
      deliverable = record d {
        proof_state = state;
        status =
            if state == ProofState.verified
            then DeliverableStatus.review_ready
            else DeliverableStatus.verifying;
      };
      aspects = aspects;
      flushed = ProofState.verifying ∷ state ∷ [];
    }

-- `run_verification` with its specs; `hosts` and the first new id as in `run_aspects`, and `venv_host`
-- the machine while the verifier's venv is built. An exception of that build leaves `verifying`.
unfoldable pub run_specs : Host → (ℕ → Host) → ℕ → Deliverable → List AspectSpec → Result Verified
run_specs venv_host hosts new_id d [] = ok (record {
  deliverable = record d { proof_state = ProofState.human_review_required };
  aspects = [];
  flushed = ProofState.human_review_required ∷ [];
})
run_specs venv_host hosts new_id d (spec ∷ specs) = elim (aspect_venv venv_host (spec ∷ specs)) [
  | err e ↦ err e
  | ok venv ↦ ok (concluded d (run_aspects hosts venv 0 new_id d.id (spec ∷ specs)))
]

-- the declared contract's aspects, or what `select_verification_aspects` finds in the workspace
abbrev pub chosen_specs : List AspectSpec → Option VerificationContract → List AspectSpec
chosen_specs heuristic none = heuristic
chosen_specs heuristic (some contract) = specs_of_checks contract.checks

-- `run_verification`; `raw` is the declared contract, null where there is none
unfoldable pub run_verification :
    (String → String)
    → (Value → String)
    → Host
    → (ℕ → Host)
    → ℕ
    → List AspectSpec
    → Value
    → Deliverable
    → Result Verified
run_verification lower str_of venv_host hosts new_id heuristic raw d =
    run_specs venv_host hosts new_id d
      (chosen_specs heuristic (parse_verification_contract lower str_of raw))

pub record AspectProbeResult : Type 0 where
  pub aspect_type : ProofAspectType
  pub outcome : Outcome
  pub blocking : Bool

abbrev pub probe_all : (ℕ → Host) → Venv → ℕ → List AspectSpec → List AspectProbeResult
probe_all hosts venv i [] = []
probe_all hosts venv i (spec ∷ specs) =
    record {
      aspect_type = spec.aspect_type;
      outcome = run_one_aspect (hosts i) venv spec;
      blocking = spec.blocking;
    }
    ∷ probe_all hosts venv (i + 1) specs

-- `probe_aspects`: the same aspects with no rows
unfoldable pub probe_aspects :
    (String → String)
    → (Value → String)
    → Host
    → (ℕ → Host)
    → List AspectSpec
    → Value
    → Result (List AspectProbeResult)
probe_aspects lower str_of venv_host hosts heuristic raw =
    let specs = chosen_specs heuristic (parse_verification_contract lower str_of raw) in
    elim (aspect_venv venv_host specs) [
      | err e ↦ err e
      | ok venv ↦ ok (probe_all hosts venv 0 specs)
    ]
