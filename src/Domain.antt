-- ===== src/Domain.antt =====
-- core/domain.py: the enumerations, each with Python's `==`.
use bsnexus.Prelude.{ℕ, Bool, true, ◌≡◌, ◌↔◌, arith, Eq, nat_beq}

pub data RequestStatus : Type 0 where
  «open» running needs_decision review_ready shipped abandoned : RequestStatus

-- the place in the declaration
abbrev request_status_rank : RequestStatus → ℕ
request_status_rank RequestStatus.«open» = 0
request_status_rank RequestStatus.running = 1
request_status_rank RequestStatus.needs_decision = 2
request_status_rank RequestStatus.review_ready = 3
request_status_rank RequestStatus.shipped = 4
request_status_rank RequestStatus.abandoned = 5

abbrev pub request_status_beq : RequestStatus → RequestStatus → Bool
request_status_beq a b = nat_beq (request_status_rank a) (request_status_rank b)

pub request_status_beq_iff : (a b : RequestStatus) → (request_status_beq a b ≡ true) ↔ (a ≡ b)
request_status_beq_iff a b = ground arith

instance abbrev pub request_status_eq : Eq RequestStatus
request_status_eq = record { beq = request_status_beq; beq_iff = request_status_beq_iff }

pub data WorkPlanStatus : Type 0 where
  draft active superseded completed : WorkPlanStatus

-- the place in the declaration
abbrev work_plan_status_rank : WorkPlanStatus → ℕ
work_plan_status_rank WorkPlanStatus.draft = 0
work_plan_status_rank WorkPlanStatus.active = 1
work_plan_status_rank WorkPlanStatus.superseded = 2
work_plan_status_rank WorkPlanStatus.completed = 3

abbrev pub work_plan_status_beq : WorkPlanStatus → WorkPlanStatus → Bool
work_plan_status_beq a b = nat_beq (work_plan_status_rank a) (work_plan_status_rank b)

pub work_plan_status_beq_iff : (a b : WorkPlanStatus) → (work_plan_status_beq a b ≡ true) ↔ (a ≡ b)
work_plan_status_beq_iff a b = ground arith

instance abbrev pub work_plan_status_eq : Eq WorkPlanStatus
work_plan_status_eq = record { beq = work_plan_status_beq; beq_iff = work_plan_status_beq_iff }

pub data WorkPlanCreatedBy : Type 0 where
  system llm_assisted user : WorkPlanCreatedBy

pub data WorkStepStatus : Type 0 where
  pending running needs_decision verifying review_ready failed skipped : WorkStepStatus

-- the place in the declaration
abbrev work_step_status_rank : WorkStepStatus → ℕ
work_step_status_rank WorkStepStatus.pending = 0
work_step_status_rank WorkStepStatus.running = 1
work_step_status_rank WorkStepStatus.needs_decision = 2
work_step_status_rank WorkStepStatus.verifying = 3
work_step_status_rank WorkStepStatus.review_ready = 4
work_step_status_rank WorkStepStatus.failed = 5
work_step_status_rank WorkStepStatus.skipped = 6

abbrev pub work_step_status_beq : WorkStepStatus → WorkStepStatus → Bool
work_step_status_beq a b = nat_beq (work_step_status_rank a) (work_step_status_rank b)

pub work_step_status_beq_iff : (a b : WorkStepStatus) → (work_step_status_beq a b ≡ true) ↔ (a ≡ b)
work_step_status_beq_iff a b = ground arith

instance abbrev pub work_step_status_eq : Eq WorkStepStatus
work_step_status_eq = record { beq = work_step_status_beq; beq_iff = work_step_status_beq_iff }

pub data RunAttemptPhase : Type 0 where
  prepare work verify summarize terminal : RunAttemptPhase

-- the place in the declaration
abbrev run_attempt_phase_rank : RunAttemptPhase → ℕ
run_attempt_phase_rank RunAttemptPhase.prepare = 0
run_attempt_phase_rank RunAttemptPhase.work = 1
run_attempt_phase_rank RunAttemptPhase.verify = 2
run_attempt_phase_rank RunAttemptPhase.summarize = 3
run_attempt_phase_rank RunAttemptPhase.terminal = 4

abbrev pub run_attempt_phase_beq : RunAttemptPhase → RunAttemptPhase → Bool
run_attempt_phase_beq a b = nat_beq (run_attempt_phase_rank a) (run_attempt_phase_rank b)

pub run_attempt_phase_beq_iff :
    (a b : RunAttemptPhase) → (run_attempt_phase_beq a b ≡ true) ↔ (a ≡ b)
run_attempt_phase_beq_iff a b = ground arith

instance abbrev pub run_attempt_phase_eq : Eq RunAttemptPhase
run_attempt_phase_eq = record { beq = run_attempt_phase_beq; beq_iff = run_attempt_phase_beq_iff }

pub data RunAttemptStatus : Type 0 where
  running completed failed timed_out : RunAttemptStatus

-- the place in the declaration
abbrev run_attempt_status_rank : RunAttemptStatus → ℕ
run_attempt_status_rank RunAttemptStatus.running = 0
run_attempt_status_rank RunAttemptStatus.completed = 1
run_attempt_status_rank RunAttemptStatus.failed = 2
run_attempt_status_rank RunAttemptStatus.timed_out = 3

abbrev pub run_attempt_status_beq : RunAttemptStatus → RunAttemptStatus → Bool
run_attempt_status_beq a b = nat_beq (run_attempt_status_rank a) (run_attempt_status_rank b)

pub run_attempt_status_beq_iff :
    (a b : RunAttemptStatus) → (run_attempt_status_beq a b ≡ true) ↔ (a ≡ b)
run_attempt_status_beq_iff a b = ground arith

instance abbrev pub run_attempt_status_eq : Eq RunAttemptStatus
run_attempt_status_eq = record {
  beq = run_attempt_status_beq;
  beq_iff = run_attempt_status_beq_iff;
}

pub data DeliverableType : Type 0 where
  code pr preview design doc «data» marketing report : DeliverableType

-- the place in the declaration
abbrev deliverable_type_rank : DeliverableType → ℕ
deliverable_type_rank DeliverableType.code = 0
deliverable_type_rank DeliverableType.pr = 1
deliverable_type_rank DeliverableType.preview = 2
deliverable_type_rank DeliverableType.design = 3
deliverable_type_rank DeliverableType.doc = 4
deliverable_type_rank DeliverableType.«data» = 5
deliverable_type_rank DeliverableType.marketing = 6
deliverable_type_rank DeliverableType.report = 7

abbrev pub deliverable_type_beq : DeliverableType → DeliverableType → Bool
deliverable_type_beq a b = nat_beq (deliverable_type_rank a) (deliverable_type_rank b)

pub deliverable_type_beq_iff : (a b : DeliverableType) → (deliverable_type_beq a b ≡ true) ↔ (a ≡ b)
deliverable_type_beq_iff a b = ground arith

instance abbrev pub deliverable_type_eq : Eq DeliverableType
deliverable_type_eq = record { beq = deliverable_type_beq; beq_iff = deliverable_type_beq_iff }

pub data DeliverableStatus : Type 0 where
  draft verifying review_ready shipped rejected : DeliverableStatus

-- the place in the declaration
abbrev deliverable_status_rank : DeliverableStatus → ℕ
deliverable_status_rank DeliverableStatus.draft = 0
deliverable_status_rank DeliverableStatus.verifying = 1
deliverable_status_rank DeliverableStatus.review_ready = 2
deliverable_status_rank DeliverableStatus.shipped = 3
deliverable_status_rank DeliverableStatus.rejected = 4

abbrev pub deliverable_status_beq : DeliverableStatus → DeliverableStatus → Bool
deliverable_status_beq a b = nat_beq (deliverable_status_rank a) (deliverable_status_rank b)

pub deliverable_status_beq_iff :
    (a b : DeliverableStatus) → (deliverable_status_beq a b ≡ true) ↔ (a ≡ b)
deliverable_status_beq_iff a b = ground arith

instance abbrev pub deliverable_status_eq : Eq DeliverableStatus
deliverable_status_eq = record {
  beq = deliverable_status_beq;
  beq_iff = deliverable_status_beq_iff;
}

pub data ProofState : Type 0 where
  verification_missing verifying verified verification_failed human_review_required : ProofState

-- the place in the declaration
abbrev proof_state_rank : ProofState → ℕ
proof_state_rank ProofState.verification_missing = 0
proof_state_rank ProofState.verifying = 1
proof_state_rank ProofState.verified = 2
proof_state_rank ProofState.verification_failed = 3
proof_state_rank ProofState.human_review_required = 4

abbrev pub proof_state_beq : ProofState → ProofState → Bool
proof_state_beq a b = nat_beq (proof_state_rank a) (proof_state_rank b)

pub proof_state_beq_iff : (a b : ProofState) → (proof_state_beq a b ≡ true) ↔ (a ≡ b)
proof_state_beq_iff a b = ground arith

instance abbrev pub proof_state_eq : Eq ProofState
proof_state_eq = record { beq = proof_state_beq; beq_iff = proof_state_beq_iff }

pub data ProofAspectType : Type 0 where
  code_test code_lint code_install_smoke code_build declared_command llm_judge : ProofAspectType

-- the place in the declaration
abbrev proof_aspect_type_rank : ProofAspectType → ℕ
proof_aspect_type_rank ProofAspectType.code_test = 0
proof_aspect_type_rank ProofAspectType.code_lint = 1
proof_aspect_type_rank ProofAspectType.code_install_smoke = 2
proof_aspect_type_rank ProofAspectType.code_build = 3
proof_aspect_type_rank ProofAspectType.declared_command = 4
proof_aspect_type_rank ProofAspectType.llm_judge = 5

abbrev pub proof_aspect_type_beq : ProofAspectType → ProofAspectType → Bool
proof_aspect_type_beq a b = nat_beq (proof_aspect_type_rank a) (proof_aspect_type_rank b)

pub proof_aspect_type_beq_iff :
    (a b : ProofAspectType) → (proof_aspect_type_beq a b ≡ true) ↔ (a ≡ b)
proof_aspect_type_beq_iff a b = ground arith

instance abbrev pub proof_aspect_type_eq : Eq ProofAspectType
proof_aspect_type_eq = record { beq = proof_aspect_type_beq; beq_iff = proof_aspect_type_beq_iff }

pub data ProofAspectStatus : Type 0 where
  queued running passed failed skipped error : ProofAspectStatus

-- the place in the declaration
abbrev proof_aspect_status_rank : ProofAspectStatus → ℕ
proof_aspect_status_rank ProofAspectStatus.queued = 0
proof_aspect_status_rank ProofAspectStatus.running = 1
proof_aspect_status_rank ProofAspectStatus.passed = 2
proof_aspect_status_rank ProofAspectStatus.failed = 3
proof_aspect_status_rank ProofAspectStatus.skipped = 4
proof_aspect_status_rank ProofAspectStatus.error = 5

abbrev pub proof_aspect_status_beq : ProofAspectStatus → ProofAspectStatus → Bool
proof_aspect_status_beq a b = nat_beq (proof_aspect_status_rank a) (proof_aspect_status_rank b)

pub proof_aspect_status_beq_iff :
    (a b : ProofAspectStatus) → (proof_aspect_status_beq a b ≡ true) ↔ (a ≡ b)
proof_aspect_status_beq_iff a b = ground arith

instance abbrev pub proof_aspect_status_eq : Eq ProofAspectStatus
proof_aspect_status_eq = record {
  beq = proof_aspect_status_beq;
  beq_iff = proof_aspect_status_beq_iff;
}
