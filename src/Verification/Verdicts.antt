-- ===== src/Verification/Verdicts.antt =====
-- What `run_verification` of core/verification.py can leave of a deliverable.
use bsnexus.Domain.{
  DeliverableStatus, ProofAspectStatus, ProofState, deliverable_status_eq, deliverable_type_eq,
  proof_aspect_status_eq, proof_aspect_type_eq, proof_state_eq, request_status_eq,
  run_attempt_phase_eq, run_attempt_status_eq, work_plan_status_eq, work_step_status_eq,
}
use bsnexus.Effects.{Result, ok}
use bsnexus.Prelude.{
  Bool, List, String, all, any, int_eq, nat_eq, not, option_eq, string_eq, true, ◌&&◌, ◌==◌, ◌||◌,
  ◌≡◌, ◌⊎◌,
}
use bsnexus.Store.{
  decision_has_id, deliverable_has_id, project_has_id, request_has_id, run_attempt_has_id,
  work_step_has_id,
}
use bsnexus.Verification.Rollup.{is_clear}
use bsnexus.Verification.Run.{Verified, blocking_of, guarded, skipped_judge, some_status}
use bsnexus.Verification.Runners.{Host, Outcome}

-- the statuses that `judge_criteria` (core/verification_judge.py) returns
abbrev pub IsGrade : ProofAspectStatus → Type 0
IsGrade st =
    (st ≡ ProofAspectStatus.passed)
    ⊎ (st ≡ ProofAspectStatus.failed)
    ⊎ (st ≡ ProofAspectStatus.error)

-- Its documented contract: a judge's reply is a grade.
abbrev pub JudgeGrades : Host → Type 0
JudgeGrades host =
    (criteria : List String) (st : ProofAspectStatus) (summary : String)
    → host.judge_criteria criteria ≡ ok (st, summary)
    → IsGrade st

-- a verdict: the aspect is neither waiting nor at work
abbrev pub is_settled : ProofAspectStatus → Bool
is_settled st = not (st == ProofAspectStatus.queued || st == ProofAspectStatus.running)

abbrev Settled : Host → String → Result Outcome → Type 0
Settled host prefix r = is_settled (guarded host prefix r).status ≡ true

-- a proof state that ends a run
abbrev pub is_concluded : ProofState → Bool
is_concluded p =
    p == ProofState.verified
    || p == ProofState.verification_failed
    || p == ProofState.human_review_required

-- What a run of the verifier leaves: a final proof state, `verified` exactly when every blocking
-- aspect is clear, one of them passed and no judge check went without its judge, and then the
-- deliverable is ready for review.
abbrev pub Conclusive : Verified → Type 0
Conclusive v =
    (is_concluded v.deliverable.proof_state ≡ true)
    × ((v.deliverable.proof_state == ProofState.verified) ≡ (
        all is_clear (blocking_of v.aspects)
        && some_status ProofAspectStatus.passed (blocking_of v.aspects)
        && not (any skipped_judge v.aspects)))
    × ((not (v.deliverable.proof_state == ProofState.verified)
          || v.deliverable.status == DeliverableStatus.review_ready)
        ≡ true)
