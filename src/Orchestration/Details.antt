-- ===== src/Orchestration/Details.antt =====
-- core/orchestration.py: the texts of a founder Decision, and the `value` of the enumerations in them.
use bsnexus.Domain.{
  ProofAspectStatus, ProofAspectType, WorkStepStatus, deliverable_status_eq, deliverable_type_eq,
  proof_aspect_status_eq, proof_aspect_type_eq, proof_state_eq, request_status_eq,
  run_attempt_phase_eq, run_attempt_status_eq, work_plan_status_eq, work_step_status_eq,
}
use bsnexus.Models.{Deliverable, VerificationAspect, WorkStep}
use bsnexus.Prelude.{
  Bool, List, Option, String, [], filter, has_text, head?, if◌then◌else◌, int_eq, join_text, ltb,
  nat_eq, none, not, option_eq, or_empty, order_by, some, string_eq, strip, take_text, ℕ, ℤ, ◌&&◌,
  ◌==◌, ◌∷◌,
}
use bsnexus.Store.{
  Store, decision_has_id, deliverable_has_id, project_has_id, request_has_id, run_attempt_has_id,
  work_step_has_id,
}
use bsnexus.Verification.Runners.{concat}

-- `WorkStepStatus.value`
abbrev pub work_step_status_text : WorkStepStatus → String
work_step_status_text WorkStepStatus.pending = "pending"
work_step_status_text WorkStepStatus.running = "running"
work_step_status_text WorkStepStatus.needs_decision = "needs_decision"
work_step_status_text WorkStepStatus.verifying = "verifying"
work_step_status_text WorkStepStatus.review_ready = "review_ready"
work_step_status_text WorkStepStatus.failed = "failed"
work_step_status_text WorkStepStatus.skipped = "skipped"

-- `ProofAspectType.value`
abbrev aspect_type_text : ProofAspectType → String
aspect_type_text ProofAspectType.code_test = "code_test"
aspect_type_text ProofAspectType.code_lint = "code_lint"
aspect_type_text ProofAspectType.code_install_smoke = "code_install_smoke"
aspect_type_text ProofAspectType.code_build = "code_build"
aspect_type_text ProofAspectType.declared_command = "declared_command"
aspect_type_text ProofAspectType.llm_judge = "llm_judge"

-- `ProofAspectStatus.value`
abbrev aspect_status_text : ProofAspectStatus → String
aspect_status_text ProofAspectStatus.queued = "queued"
aspect_status_text ProofAspectStatus.running = "running"
aspect_status_text ProofAspectStatus.passed = "passed"
aspect_status_text ProofAspectStatus.failed = "failed"
aspect_status_text ProofAspectStatus.skipped = "skipped"
aspect_status_text ProofAspectStatus.error = "error"

abbrev pub newer_deliverable : Deliverable → Deliverable → Bool
newer_deliverable a b = ltb b.created_at a.created_at

-- `ORDER BY created_at DESC LIMIT 1`
abbrev pub latest_deliverable : ℕ → List Deliverable → Option Deliverable
latest_deliverable step rows =
    head? (order_by newer_deliverable (filter (λ d. d.work_step_id == some step) rows))

-- `DECISION_OPTIONS`
abbrev pub decision_options : List String
decision_options = "retry" ∷ "reframe" ∷ []

-- `step_name` in the question
abbrev question_name : Option WorkStep → String
question_name none = "the work"
question_name (some w) = w.draft.name

-- the question that a Decision asks
unfoldable pub decision_question : Option WorkStep → String → Option String → String
decision_question work_step reason detail =
    let question = concat (
      "Work on \""
      ∷ question_name work_step
      ∷ "\" stalled and cannot continue on its own (reason: "
      ∷ reason
      ∷ "). Choose how to move it forward: retry the work as-is, or reframe it with new direction."
      ∷ []) in
    if has_text detail
    then concat (question ∷ "\n\nWhat the verifier saw:\n" ∷ strip (or_empty detail) ∷ [])
    else question

module _ (exit_text : Option ℤ → String) where
  -- `[type] status (exit n)`
  abbrev aspect_head : VerificationAspect → String
  aspect_head a =
      let head =
        concat ("[" ∷ aspect_type_text a.aspect_type ∷ "] " ∷ aspect_status_text a.status ∷ []) in
      if a.exit_code == none
      then head
      else concat (head ∷ " (exit " ∷ exit_text a.exit_code ∷ ")" ∷ [])

  abbrev aspect_lines : List VerificationAspect → List String
  aspect_lines [] = []
  aspect_lines (a ∷ rest) =
      aspect_head a
      ∷ (if has_text a.result_summary
          then take_text 600 (strip (or_empty a.result_summary)) ∷ aspect_lines rest
          else aspect_lines rest)

  -- `"\n".join(lines)`
  abbrev join_lines : List String → String
  join_lines [] = ""
  join_lines (t ∷ []) = t
  join_lines (t ∷ u ∷ ts) = join_text t (join_text "\n" (join_lines (u ∷ ts)))

  -- the aspects that did not pass, as text
  abbrev aspects_detail : List VerificationAspect → Option String
  aspects_detail [] = none
  aspects_detail (a ∷ rows) = some (join_lines (aspect_lines (a ∷ rows)))

  -- `_work_step_failure_detail`
  unfoldable pub work_step_failure_detail : WorkStep → Store → Option String
  work_step_failure_detail step s = elim (latest_deliverable step.id s.deliverables) [
    | none ↦ none
    | some d ↦ aspects_detail (
        filter (λ a. a.deliverable_id == d.id && not (a.status == ProofAspectStatus.passed))
          s.aspects)
  ]
