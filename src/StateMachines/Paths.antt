-- ===== src/StateMachines/Paths.antt =====
-- The transition tables of core/state_machines.py as graphs: what can be reached, and what absorbs.
use bsnexus.Domain.{RequestStatus, WorkStepStatus}
use bsnexus.Prelude.{Bool, arith, refl, true, ◌≡◌, ◌≢◌, ◌⊎◌}
use bsnexus.StateMachines.{can_transition_request, can_transition_work_step}

-- a sequence of allowed transitions
pub data PathBy {ℓ} {A : Type ℓ} (allowed : A → A → Bool) : A → A → Type ℓ where
  here : {s : A} → PathBy allowed s s
  hop : {s u : A} (t : A) → allowed s t ≡ true → PathBy allowed t u → PathBy allowed s u

-- The table has a path to `shipped` from every Request status but `abandoned`.
pub request_can_ship :
    (s : RequestStatus)
    → s ≢ RequestStatus.abandoned
    → PathBy can_transition_request s RequestStatus.shipped
unfolding can_transition_request
request_can_ship RequestStatus.«open» h =
    hop RequestStatus.running refl
      (hop RequestStatus.review_ready refl (hop RequestStatus.shipped refl here))
request_can_ship RequestStatus.running h =
    hop RequestStatus.review_ready refl (hop RequestStatus.shipped refl here)
request_can_ship RequestStatus.needs_decision h =
    hop RequestStatus.running refl
      (hop RequestStatus.review_ready refl (hop RequestStatus.shipped refl here))
request_can_ship RequestStatus.review_ready h = hop RequestStatus.shipped refl here
request_can_ship RequestStatus.shipped h = here
request_can_ship RequestStatus.abandoned h = absurd (h refl)

-- The table has a path to `review_ready` from every WorkStep status but `skipped`.
pub work_step_can_finish :
    (s : WorkStepStatus)
    → s ≢ WorkStepStatus.skipped
    → PathBy can_transition_work_step s WorkStepStatus.review_ready
unfolding can_transition_work_step
work_step_can_finish WorkStepStatus.pending h =
    hop WorkStepStatus.running refl
      (hop WorkStepStatus.verifying refl (hop WorkStepStatus.review_ready refl here))
work_step_can_finish WorkStepStatus.running h =
    hop WorkStepStatus.verifying refl (hop WorkStepStatus.review_ready refl here)
work_step_can_finish WorkStepStatus.needs_decision h =
    hop WorkStepStatus.running refl
      (hop WorkStepStatus.verifying refl (hop WorkStepStatus.review_ready refl here))
work_step_can_finish WorkStepStatus.verifying h = hop WorkStepStatus.review_ready refl here
work_step_can_finish WorkStepStatus.review_ready h = here
work_step_can_finish WorkStepStatus.failed h =
    hop WorkStepStatus.running refl
      (hop WorkStepStatus.verifying refl (hop WorkStepStatus.review_ready refl here))
work_step_can_finish WorkStepStatus.skipped h = absurd (h refl)

-- From `shipped` or `abandoned` no sequence of transitions leads anywhere else.
pub request_terminal :
    {s u : RequestStatus}
    → PathBy can_transition_request s u
    → (s ≡ RequestStatus.shipped) ⊎ (s ≡ RequestStatus.abandoned)
    → u ≡ s
unfolding can_transition_request
request_terminal here h = refl
request_terminal (hop t a p) h = ground arith
