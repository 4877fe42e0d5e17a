-- ===== src/Verification/Rollup.antt =====
-- `rollup_proof_state` of core/verification.py against the rules of its own docstring. That of
-- `ProofAspectType` (core/domain.py) says that every blocking aspect has passed in a verified
-- deliverable; here a blocking aspect may also be skipped, if another one has passed.
use bsnexus.Domain.{
  ProofAspectStatus, ProofState, deliverable_status_eq, deliverable_type_eq, proof_aspect_status_eq,
  proof_aspect_type_eq, proof_state_eq, request_status_eq, run_attempt_phase_eq,
  run_attempt_status_eq, work_plan_status_eq, work_step_status_eq,
}
use bsnexus.Models.{VerificationAspect}
use bsnexus.Prelude.{
  Bool, List, [], all, any, arith, false, int_eq, length, nat_beq, nat_eq, not, option_eq, refl,
  string_eq, true, ◌&&◌, ◌==◌, ◌||◌, ◌∷◌, ◌≡◌,
}
use bsnexus.Store.{
  decision_has_id, deliverable_has_id, project_has_id, request_has_id, run_attempt_has_id,
  work_step_has_id,
}
use bsnexus.Verification.Run.{blocking_of, rollup_proof_state, some_status}

-- the aspect ran and does not speak against the deliverable
abbrev pub is_clear : VerificationAspect → Bool
is_clear a = a.status == ProofAspectStatus.passed || a.status == ProofAspectStatus.skipped

abbrev pending : VerificationAspect → Bool
pending a = a.status == ProofAspectStatus.queued || a.status == ProofAspectStatus.running

clear_iff :
    (rows : List VerificationAspect)
    → all is_clear rows ≡ (
        not (some_status ProofAspectStatus.error rows)
        && not (some_status ProofAspectStatus.failed rows)
        && not (any pending rows))
clear_iff [] = refl
clear_iff (a ∷ rows) = ground (arith, clear_iff rows)

some_of_none :
    (st : ProofAspectStatus) (rows : List VerificationAspect)
    → nat_beq (length rows) 0 ≡ true
    → some_status st rows ≡ false
some_of_none st [] h = refl
some_of_none st (a ∷ rows) h = ground arith

none_blocking :
    (rows : List VerificationAspect)
    → nat_beq (length rows) 0 ≡ true
    → nat_beq (length (blocking_of rows)) 0 ≡ true
none_blocking [] h = refl
none_blocking (a ∷ rows) h = ground arith

-- `verified` exactly when every blocking aspect passed or was skipped and one of them passed, so that
-- a skipped one does not prevent it; `verification_failed` exactly when a blocking aspect failed and none broke down.
pub rollup_exact :
    (rows : List VerificationAspect)
    → ((rollup_proof_state rows == ProofState.verified) ≡ (
        all is_clear (blocking_of rows) && some_status ProofAspectStatus.passed (blocking_of rows)))
      × ((rollup_proof_state rows == ProofState.verification_failed) ≡ (
          not (some_status ProofAspectStatus.error (blocking_of rows))
          && some_status ProofAspectStatus.failed (blocking_of rows)))
unfolding rollup_proof_state
rollup_exact rows = ground (
  arith,
  clear_iff (blocking_of rows),
  none_blocking rows,
  some_of_none ProofAspectStatus.passed (blocking_of rows),
  some_of_none ProofAspectStatus.failed (blocking_of rows),
)
