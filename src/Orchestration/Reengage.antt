-- ===== src/Orchestration/Reengage.antt =====
-- `re_engage_request` of core/orchestration.py: a resolved Decision moves its work forward, once.
use bsnexus.Domain.{
  RequestStatus, WorkStepStatus, deliverable_status_eq, deliverable_type_eq, proof_aspect_status_eq,
  proof_aspect_type_eq, proof_state_eq, request_status_eq, run_attempt_phase_eq,
  run_attempt_status_eq, work_plan_status_eq, work_step_status_eq,
}
use bsnexus.Effects.{Result, continue, ok}
use bsnexus.GitOps.Branch.{GitEnv}
use bsnexus.Models.{Decision, Request, WorkStep}
use bsnexus.Orchestration.Defs.{
  announced, is_stuck, is_stuck_status, re_engage_request, re_engage_step,
}
use bsnexus.Prelude.{
  Option, String, ap, false, int_eq, nat_eq, option_eq, refl, some, string_eq, true, ◌==◌, ◌≡◌,
}
use bsnexus.StateMachines.{can_transition_request, can_transition_work_step}
use bsnexus.Store.{
  Store, decision_has_id, deliverable_has_id, get, project_has_id, request_has_id,
  run_attempt_has_id, update, work_step_has_id,
}
use bsnexus.Store.Tables.{get-update_found}
use bsnexus.WorkSteps.Defs.{moved_step, set_request_status}
use bsnexus.WorkSteps.Requests.{request_moves}
use bsnexus.WorkSteps.Steps.{transition_moves}

stuck_can_run :
    (st : WorkStepStatus)
    → is_stuck_status st ≡ true
    → can_transition_work_step st WorkStepStatus.running ≡ true
unfolding can_transition_work_step
stuck_can_run WorkStepStatus.pending h = refl
stuck_can_run WorkStepStatus.running h = cc
stuck_can_run WorkStepStatus.needs_decision h = refl
stuck_can_run WorkStepStatus.verifying h = cc
stuck_can_run WorkStepStatus.review_ready h = cc
stuck_can_run WorkStepStatus.failed h = refl
stuck_can_run WorkStepStatus.skipped h = cc

-- the store with the Request and its stuck step at work again
abbrev pub re_engaged : Request → WorkStep → Store → Store
re_engaged r w s = record s {
  requests = update r.id (set_request_status RequestStatus.running) s.requests;
  steps = update w.id (moved_step WorkStepStatus.running) s.steps;
}

re_engage_step-moves :
    (w : WorkStep) (s : Store)
    → get w.id s.steps ≡ some w
    → is_stuck w ≡ true
    → re_engage_step (some w.id) s
      ≡ (ok tt, record s { steps = update w.id (moved_step WorkStepStatus.running) s.steps })
unfolding re_engage_step
re_engage_step-moves w s e stuck =
    rw (e, stuck, re_engage_step)
      (transition_moves w.id WorkStepStatus.running s w e (stuck_can_run w.status stuck))

module _ (lower : String → String) (env : GitEnv) where
  moves_both :
      (publish : Option (Result (Unit {0}))) (d : Decision) (r : Request) (w : WorkStep) (s : Store)
      → d.request_id ≡ some r.id
      → d.work_step_id ≡ some w.id
      → get r.id s.requests ≡ some r
      → r.status ≡ RequestStatus.needs_decision
      → get w.id s.steps ≡ some w
      → is_stuck w ≡ true
      → re_engage_request lower env publish d s ≡ announced publish (re_engaged r w s)
  unfolding re_engage_request can_transition_request
  moves_both publish d r w s e1 e2 row waits e stuck =
      let s1 = record s {
        requests = update r.id (set_request_status RequestStatus.running) s.requests;
      } in
      let parked : (r.status == RequestStatus.needs_decision) ≡ true = rw waits refl in
      let m1 = request_moves lower env r.id RequestStatus.running s r row (rw waits refl) refl in
      rw (e1, row, parked, e2, m1, re_engage_request)
        (ap (λ (q : Result (Unit {0}) × Store). continue q.0 (λ _. announced publish) q.1)
          (re_engage_step-moves w s1 e stuck))

  -- A resolved Decision of a waiting Request, on a stuck step, is never refused: the Request and the
  -- step run again, and the result is `true` where the message is published. Any further Decision
  -- of that Request is then a no-op with result `false`, whatever the stream does.
  pub re_engages_once :
      (d d' : Decision) (publish : Option (Result (Unit {0}))) (r : Request) (w : WorkStep)
      (s : Store)
      → d.request_id ≡ some r.id
      → d.work_step_id ≡ some w.id
      → get r.id s.requests ≡ some r
      → r.status ≡ RequestStatus.needs_decision
      → get w.id s.steps ≡ some w
      → is_stuck w ≡ true
      → d'.request_id ≡ some r.id
      → (re_engage_request lower env (some (ok tt)) d s ≡ (ok true, re_engaged r w s))
        × (re_engage_request lower env publish d' (re_engaged r w s) ≡ (ok false, re_engaged r w s))
  unfolding re_engage_request
  re_engages_once d d' publish r w s e1 e2 row waits e stuck e3 =
      let row' =
        get-update_found r.id (set_request_status RequestStatus.running) s.requests r (λ x. refl)
          row in
      (
        moves_both (some (ok tt)) d r w s e1 e2 row waits e stuck,
        rw (e3, row', re_engage_request) refl,
      )
