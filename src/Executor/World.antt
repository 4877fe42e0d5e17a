-- ===== src/Executor/World.antt =====
-- core/run_attempt_executor.py: the state that a dispatch changes, and the small methods on it.
--
-- An attempt's row catches up with the object where its work has ended; nothing reads it before.
-- `core/deliverables.py` is `create_deliverable_from_work_output`.
use bsnexus.Domain.{
  DeliverableStatus, DeliverableType, ProofAspectStatus, ProofState, RunAttemptPhase,
  RunAttemptStatus, deliverable_status_eq, deliverable_type_eq, proof_aspect_status_eq,
  proof_aspect_type_eq, proof_state_eq, request_status_eq, run_attempt_phase_eq,
  run_attempt_status_eq, work_plan_status_eq, work_step_status_eq,
}
use bsnexus.Effects.{Exec, lift, ok, ◌>>=◌}
use bsnexus.Executor.Defs.{Phase, summary_preview_chars}
use bsnexus.Json.{Fields, Value}
use bsnexus.Models.{Deliverable, Handoff, RunAttempt, ToolEvent, VerificationAspect}
use bsnexus.Prelude.{
  List, Option, String, [], if◌then◌else◌, int_eq, is_empty, nat_eq, none, option_eq, some,
  string_eq, take_text, ℕ, ◌++◌, ◌+◌, ◌==◌, ◌∷◌,
}
use bsnexus.RunAttempts.Defs.{advance_phase, finish_run_attempt}
use bsnexus.RunAttempts.Events.{accept_llm_phase_output}
use bsnexus.Store.{
  Store, decision_has_id, deliverable_has_id, project_has_id, request_has_id, run_attempt_has_id,
  update, work_step_has_id,
}
use bsnexus.Verification.Specs.{AspectSpec}

pub record World : Type 0 where
  pub store : Store
  pub tool_events : List ToolEvent
  pub next_event : ℕ
  pub trips : ℕ
  -- the ids on `proof:queue`
  pub queue : List ℕ

pub record DispatchRunAttemptResult : Type 0 where
  pub attempt : RunAttempt
  pub deliverable : Option Deliverable
  pub terminal_reason : String

-- `_AttemptOutcome`: a handoff, or a final result
pub data AttemptOutcome : Type 0 where
  hands_over : Handoff → AttemptOutcome
  concludes : DispatchRunAttemptResult → AttemptOutcome

pub record WorkOutputDraft : Type 0 where
  pub project_id : ℕ
  pub title : String
  pub type : DeliverableType
  pub request_id : Option ℕ
  pub work_step_id : Option ℕ
  pub summary : Option String
  pub artifact_refs : List String
  pub risk_summary : Option String

-- `text or None`
abbrev pub or_none : String → Option String
or_none text = if is_empty text then none else some text

abbrev new_deliverable : ℕ → ℕ → ℕ → WorkOutputDraft → Deliverable
new_deliverable new_id now tenant draft = record {
  id = new_id;
  tenant_id = tenant;
  project_id = draft.project_id;
  request_id = draft.request_id;
  work_step_id = draft.work_step_id;
  type = draft.type;
  status = DeliverableStatus.draft;
  proof_state = ProofState.verification_missing;
  title = draft.title;
  summary = draft.summary;
  artifact_refs = draft.artifact_refs;
  risk_summary = draft.risk_summary;
  created_at = now;
}

unfoldable pub create_deliverable_from_work_output : ℕ → WorkOutputDraft → Exec Store Deliverable
create_deliverable_from_work_output tenant draft s =
    let d = new_deliverable s.next_id s.now tenant draft in
    (ok d, record s { deliverables = s.deliverables ++ d ∷ []; next_id = s.next_id + 1 })

abbrev pub on_store : {A : Type 0} → Exec Store A → Exec World A
on_store m w = ((m w.store).0, record w { store = (m w.store).1 })

-- the attempt's assignments reach its row
unfoldable pub put_attempt : RunAttempt → Exec World RunAttempt
put_attempt a w = (
  ok a,
  record w { store = record (w.store) { attempts = update a.id (λ _. a) (w.store).attempts } },
)

abbrev pub finish_attempt : ℕ → RunAttemptStatus → String → RunAttempt → Exec World RunAttempt
finish_attempt now status reason a = do
  b ← lift (finish_run_attempt now status reason a)
  put_attempt b

abbrev pub advance_attempt : RunAttemptPhase → RunAttempt → Exec World RunAttempt
advance_attempt target a = do b ← lift (advance_phase target a); put_attempt b

-- what the work wrote
abbrev pub synced : Phase → World → World
synced ph w = record w {
  store = record (w.store) {
    attempts = update ph.session.attempt.id (λ _. ph.session.attempt) (w.store).attempts;
  };
  tool_events = ph.session.events;
  next_event = ph.session.next_id;
  trips = ph.trips;
}

-- `_capture_verification_contract`
unfoldable pub capture_verification_contract : Phase → Phase
capture_verification_contract ph = elim (ph.contract) [
  | none ↦ ph
  | some c ↦ record ph {
    session = record (ph.session) {
      attempt = record (ph.session.attempt) { verification_contract = some c };
    };
  }
]

-- `attempt.handoff = handoff`
abbrev pub with_handoff : Handoff × Phase → Phase
with_handoff (h, ph) = record ph {
  session = record (ph.session) { attempt = record (ph.session.attempt) { handoff = some h } };
}

-- a run that did not converge is never `verified`
abbrev pub demoted : Deliverable → Deliverable
demoted d =
    if d.proof_state == ProofState.verified
    then record d { proof_state = ProofState.human_review_required }
    else d

-- `accept_llm_phase_output` gets one field
abbrev summary_payload : String → Fields
summary_payload text = Fields.field "summary" (Value.str text) Fields.end

abbrev pub summarized : (List String → List String) → String → RunAttempt → RunAttempt
summarized sort_names text a =
    (accept_llm_phase_output sort_names (summary_payload (take_text summary_preview_chars text))
      a).1

-- the rows that `run_verification` adds before its aspects run
unfoldable pub queued_rows : ℕ → ℕ → List AspectSpec → List VerificationAspect
queued_rows new_id deliverable [] = []
queued_rows new_id deliverable (spec ∷ specs) =
    record {
      id = new_id;
      deliverable_id = deliverable;
      aspect_type = spec.aspect_type;
      status = ProofAspectStatus.queued;
      blocking = spec.blocking;
      result_summary = none;
      exit_code = none;
    }
    ∷ queued_rows (new_id + 1) deliverable specs
