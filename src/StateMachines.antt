-- ===== src/StateMachines.antt =====
-- core/state_machines.py: the transition tables of Request, WorkStep, RunAttempt phase and proof.
pub mod Paths
pub mod Phases
use bsnexus.Domain.{
  ProofState, RequestStatus, RunAttemptPhase, WorkStepStatus, deliverable_status_eq,
  deliverable_type_eq, proof_aspect_status_eq, proof_aspect_type_eq, proof_state_eq,
  request_status_eq, run_attempt_phase_eq, run_attempt_status_eq, work_plan_status_eq,
  work_step_status_eq,
}
use bsnexus.Prelude.{
  Bool, List, Option, [], contains, if◌then◌else◌, length, ltb, nat_eq, none, option_eq, some,
  string_eq, suc, zero, ℕ, ◌&&◌, ◌==◌, ◌∷◌,
}

abbrev pub request_transitions : RequestStatus → List RequestStatus
request_transitions RequestStatus.«open» = RequestStatus.running ∷ RequestStatus.abandoned ∷ []
request_transitions RequestStatus.running =
    RequestStatus.needs_decision ∷ RequestStatus.review_ready ∷ RequestStatus.abandoned ∷ []
request_transitions RequestStatus.needs_decision =
    RequestStatus.running ∷ RequestStatus.abandoned ∷ []
request_transitions RequestStatus.review_ready = RequestStatus.running ∷ RequestStatus.shipped ∷ []
request_transitions RequestStatus.shipped = []
request_transitions RequestStatus.abandoned = []

abbrev pub work_step_transitions : WorkStepStatus → List WorkStepStatus
work_step_transitions WorkStepStatus.pending = WorkStepStatus.running ∷ WorkStepStatus.skipped ∷ []
work_step_transitions WorkStepStatus.running =
    WorkStepStatus.needs_decision ∷ WorkStepStatus.verifying ∷ WorkStepStatus.failed ∷ []
work_step_transitions WorkStepStatus.needs_decision =
    WorkStepStatus.running ∷ WorkStepStatus.skipped ∷ []
work_step_transitions WorkStepStatus.verifying =
    WorkStepStatus.review_ready ∷ WorkStepStatus.failed ∷ []
work_step_transitions WorkStepStatus.review_ready = []
work_step_transitions WorkStepStatus.failed = WorkStepStatus.running ∷ []
work_step_transitions WorkStepStatus.skipped = []

abbrev pub run_attempt_phase_order : List RunAttemptPhase
run_attempt_phase_order =
    RunAttemptPhase.prepare ∷ RunAttemptPhase.work ∷ RunAttemptPhase.verify
    ∷ RunAttemptPhase.summarize ∷ RunAttemptPhase.terminal ∷ []

abbrev pub proof_transitions : ProofState → List ProofState
proof_transitions ProofState.verification_missing =
    ProofState.verifying ∷ ProofState.human_review_required ∷ []
proof_transitions ProofState.verifying =
    ProofState.verified ∷ ProofState.verification_failed ∷ ProofState.human_review_required ∷ []
proof_transitions ProofState.verification_failed = ProofState.verifying ∷ []
proof_transitions ProofState.human_review_required = ProofState.verified ∷ []
proof_transitions ProofState.verified = []

unfoldable pub can_transition_request : RequestStatus → RequestStatus → Bool
can_transition_request current target = contains target (request_transitions current)

unfoldable pub can_transition_work_step : WorkStepStatus → WorkStepStatus → Bool
can_transition_work_step current target = contains target (work_step_transitions current)

-- `tuple.index`; every phase stands in the tuple, so the `ValueError` of a miss never shows
phase_index : RunAttemptPhase → List RunAttemptPhase → ℕ
phase_index p [] = 0
phase_index p (q ∷ qs) = if q == p then 0 else suc (phase_index p qs)

phase_at : ℕ → List RunAttemptPhase → Option RunAttemptPhase
phase_at i [] = none
phase_at zero (q ∷ qs) = some q
phase_at (suc i) (q ∷ qs) = phase_at i qs

unfoldable pub can_advance_run_attempt_phase : RunAttemptPhase → RunAttemptPhase → Bool
unfolding phase_index phase_at
can_advance_run_attempt_phase current target =
    let next_index = suc (phase_index current run_attempt_phase_order) in
    ltb next_index (length run_attempt_phase_order)
    && phase_at next_index run_attempt_phase_order == some target

unfoldable pub can_transition_proof : ProofState → ProofState → Bool
can_transition_proof current target = contains target (proof_transitions current)
