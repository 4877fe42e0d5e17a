-- ===== src/Tests/Machines.antt =====
-- The theorems on the status tables, applied.
use bsnexus.Domain.{RequestStatus, RunAttemptPhase, WorkStepStatus}
use bsnexus.Prelude.{true, ◌+◌, ◌↔◌, ◌≡◌}
use bsnexus.StateMachines.{
  can_advance_run_attempt_phase, can_transition_request, can_transition_work_step,
}
use bsnexus.StateMachines.Paths.{PathBy, request_can_ship, work_step_can_finish}
use bsnexus.StateMachines.Phases.{can_advance_iff_next_stage, stage}

can_advance_iff_next_stage_example :
    (can_advance_run_attempt_phase RunAttemptPhase.work RunAttemptPhase.verify ≡ true)
    ↔ (stage RunAttemptPhase.verify ≡ stage RunAttemptPhase.work + 1)
can_advance_iff_next_stage_example =
    can_advance_iff_next_stage RunAttemptPhase.work RunAttemptPhase.verify

request_can_ship_example : PathBy can_transition_request RequestStatus.«open» RequestStatus.shipped
request_can_ship_example = request_can_ship RequestStatus.«open» (λ e. cc)

work_step_can_finish_example :
    PathBy can_transition_work_step WorkStepStatus.failed WorkStepStatus.review_ready
work_step_can_finish_example = work_step_can_finish WorkStepStatus.failed (λ e. cc)
