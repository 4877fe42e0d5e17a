-- ===== src/RunAttempts/Bounds.antt =====
-- How long an attempt of core/run_attempts.py can run: its round budgets as an invariant.
use bsnexus.Domain.{
  RunAttemptPhase, RunAttemptStatus, deliverable_status_eq, deliverable_type_eq,
  proof_aspect_status_eq, proof_aspect_type_eq, proof_state_eq, request_status_eq,
  run_attempt_phase_eq, run_attempt_status_eq, work_plan_status_eq, work_step_status_eq,
}
use bsnexus.Effects.{ok}
use bsnexus.Json.{Fields}
use bsnexus.Models.{RunAttempt, ToolEvent}
use bsnexus.Prelude.{
  Bool, List, Option, String, [], arith, contains, false, inl, inr, int_eq, is_empty, join_text,
  ltb, nat_eq, none, not, option_eq, refl, some, string_eq, strip, true, ℕ, ◌++◌, ◌+◌, ◌==◌, ◌∷◌,
  ◌≡◌, ◌≢◌, ◌≤◌, ◌⊎◌,
}
use bsnexus.RunAttempts.Defs.{
  Session, ToolEventInput, advance_phase, allowed_tools_by_phase, catastrophic_round_cap, closed,
  create_run_attempt, finish_run_attempt, is_running, phase_round_budgets,
}
use bsnexus.RunAttempts.Events.{
  accept_event, budget_reason, conclude_event, count_round, new_event, record_tool_event,
  repeated_reason, repetition_nudge_if_needed, terminal_reason_after_event, termination_status,
}
use bsnexus.Store.{
  decision_has_id, deliverable_has_id, project_has_id, request_has_id, run_attempt_has_id,
  work_step_has_id,
}

abbrev pub rounds : RunAttempt → RunAttemptPhase → ℕ
rounds a p = a.telemetry.phase_rounds p

-- What holds of an attempt between two calls.
pub record IsSound (a : RunAttempt) : Type 0 where
  pub life : (a.phase == RunAttemptPhase.terminal) ≡ not (a.status == RunAttemptStatus.running)
  pub reason : a.phase ≡ RunAttemptPhase.terminal → a.terminal_reason ≢ none
  pub total :
      a.round_count
      ≡ rounds a RunAttemptPhase.prepare
        + rounds a RunAttemptPhase.work
        + rounds a RunAttemptPhase.verify
  pub no_summary_rounds : rounds a RunAttemptPhase.summarize ≡ 0
  pub no_terminal_rounds : rounds a RunAttemptPhase.terminal ≡ 0
  pub prepare_budget : a.status ≡ RunAttemptStatus.running → rounds a RunAttemptPhase.prepare ≤ 3
  pub work_budget : a.status ≡ RunAttemptStatus.running → rounds a RunAttemptPhase.work ≤ 48
  pub verify_budget : a.status ≡ RunAttemptStatus.running → rounds a RunAttemptPhase.verify ≤ 1
  pub bounded : a.round_count ≤ 53

pub create-IsSound :
    (i now step : ℕ) (kind : String) (model : Option String)
    → IsSound (create_run_attempt i now step kind model)
unfolding create_run_attempt
create-IsSound i now step kind model = ground arith

pub advance-IsSound :
    (target : RunAttemptPhase) (a b : RunAttempt)
    → IsSound a
    → advance_phase target a ≡ ok b
    → IsSound b
unfolding advance_phase
advance-IsSound target a b s e = ground arith

closed-IsSound :
    (now : ℕ) (st : RunAttemptStatus) (r : String) (a : RunAttempt)
    → st ≢ RunAttemptStatus.running
    → IsSound a
    → IsSound (closed now st r a)
unfolding closed
closed-IsSound now st r a n s = ground arith

pub finish-IsSound :
    (now : ℕ) (st : RunAttemptStatus) (r : String) (a b : RunAttempt)
    → IsSound a
    → finish_run_attempt now st r a ≡ ok b
    → IsSound b
unfolding finish_run_attempt
finish-IsSound now st r a b s e = ground (arith, closed-IsSound now st r a)

-- the same attempt but for the nudges
pub record SameLife (a b : RunAttempt) : Type 0 where
  pub same_id : b.id ≡ a.id
  pub same_phase : b.phase ≡ a.phase
  pub same_status : b.status ≡ a.status
  pub same_count : b.round_count ≡ a.round_count
  pub same_reason : b.terminal_reason ≡ a.terminal_reason
  pub same_rounds : (p : RunAttemptPhase) → rounds b p ≡ rounds a p

pub nudge-SameLife :
    (a : RunAttempt) (e : ToolEvent) (es : List ToolEvent)
    → SameLife a (repetition_nudge_if_needed a e es).1
unfolding repetition_nudge_if_needed
nudge-SameLife a e es = ground arith

IsSound-SameLife : (a b : RunAttempt) → SameLife a b → IsSound a → IsSound b
IsSound-SameLife a b same s = ground (
  arith,
  same.same_rounds RunAttemptPhase.prepare,
  same.same_rounds RunAttemptPhase.work,
  same.same_rounds RunAttemptPhase.verify,
  same.same_rounds RunAttemptPhase.summarize,
  same.same_rounds RunAttemptPhase.terminal,
)

-- a phase with no round left
abbrev pub over_budget : RunAttempt → Bool
over_budget a = ltb (phase_round_budgets a.phase) (rounds a a.phase)

-- After a counted round all but the budget of the current phase still holds.
pub record IsCounted (a : RunAttempt) : Type 0 where
  pub life : (a.phase == RunAttemptPhase.terminal) ≡ not (a.status == RunAttemptStatus.running)
  pub alive : a.status ≡ RunAttemptStatus.running
  pub total :
      a.round_count
      ≡ rounds a RunAttemptPhase.prepare
        + rounds a RunAttemptPhase.work
        + rounds a RunAttemptPhase.verify
  pub no_summary_rounds : rounds a RunAttemptPhase.summarize ≡ 0
  pub no_terminal_rounds : rounds a RunAttemptPhase.terminal ≡ 0
  pub within :
      over_budget a ≡ false
      → (rounds a RunAttemptPhase.prepare ≤ 3)
        × (rounds a RunAttemptPhase.work ≤ 48)
        × (rounds a RunAttemptPhase.verify ≤ 1)
  pub bounded : a.round_count ≤ 53

-- only the first three phases have tools
has_tools :
    (p : RunAttemptPhase) (t : String)
    → contains t (allowed_tools_by_phase p) ≡ true
    → (p ≡ RunAttemptPhase.prepare) ⊎ (p ≡ RunAttemptPhase.work) ⊎ (p ≡ RunAttemptPhase.verify)
has_tools RunAttemptPhase.prepare t h = inl refl
has_tools RunAttemptPhase.work t h = inr (inl refl)
has_tools RunAttemptPhase.verify t h = inr (inr refl)
has_tools RunAttemptPhase.summarize t h = cc
has_tools RunAttemptPhase.terminal t h = cc

pub count-IsCounted :
    (a : RunAttempt) (t : String)
    → IsSound a
    → is_running a ≡ true
    → contains t (allowed_tools_by_phase a.phase) ≡ true
    → IsCounted (count_round a)
unfolding count_round is_running
count-IsCounted a t s r h = ground (arith, has_tools a.phase t h)

-- Without a terminal reason the budgets hold again.
not_terminal_within :
    (a : RunAttempt) (e : ToolEvent) (es : List ToolEvent)
    → terminal_reason_after_event a e es ≡ none
    → over_budget a ≡ false
unfolding terminal_reason_after_event
not_terminal_within a e es h = ground arith

counted-IsSound : (a : RunAttempt) → IsCounted a → over_budget a ≡ false → IsSound a
counted-IsSound a c h = ground arith

counted_closed-IsSound :
    (now : ℕ) (st : RunAttemptStatus) (r : String) (a : RunAttempt)
    → st ≢ RunAttemptStatus.running
    → IsCounted a
    → IsSound (closed now st r a)
unfolding closed
counted_closed-IsSound now st r a n c = ground arith

IsCounted-SameLife : (a b : RunAttempt) → SameLife a b → IsCounted a → IsCounted b
IsCounted-SameLife a b same c = ground (
  arith,
  same.same_rounds RunAttemptPhase.prepare,
  same.same_rounds RunAttemptPhase.work,
  same.same_rounds RunAttemptPhase.verify,
  same.same_rounds RunAttemptPhase.summarize,
  same.same_rounds RunAttemptPhase.terminal,
  same.same_rounds a.phase,
)

over_budget-SameLife :
    (a b : RunAttempt) → SameLife a b → over_budget a ≡ false → over_budget b ≡ false
over_budget-SameLife a b same h = rw (same.same_phase, same.same_rounds a.phase) h

termination_status-ne-running : (r : String) → termination_status r ≢ RunAttemptStatus.running
termination_status-ne-running r = ground arith

conclude-IsSound :
    (now : ℕ) (e : ToolEvent) (reason nudge : Option String) (s : Session)
    → IsCounted s.attempt
    → (reason ≡ none → over_budget s.attempt ≡ false)
    → ((r : String) → reason ≡ some r → is_empty (strip r) ≡ false)
    → IsSound (conclude_event now e reason nudge s).1.attempt
unfolding conclude_event
conclude-IsSound now e none nudge s c h ne = counted-IsSound s.attempt c (h refl)
conclude-IsSound now e (some reason) nudge s c h ne = ground (
  arith,
  ne reason refl,
  counted_closed-IsSound now (termination_status reason) reason s.attempt,
  termination_status-ne-running reason,
)

pub reason_cases :
    (a : RunAttempt) (e : ToolEvent) (es : List ToolEvent) (r : String)
    → terminal_reason_after_event a e es ≡ some r
    → ((r ≡ "catastrophic_round_budget_exceeded") × (catastrophic_round_cap ≤ a.round_count))
      ⊎ (r ≡ budget_reason a.phase)
      ⊎ (r ≡ repeated_reason e.tool_name)
unfolding terminal_reason_after_event
reason_cases a e es r h = ground arith

pub budget_not_blank : (p : RunAttemptPhase) → is_empty (strip (budget_reason p)) ≡ false
unfolding strip join_text
budget_not_blank RunAttemptPhase.prepare = refl
budget_not_blank RunAttemptPhase.work = refl
budget_not_blank RunAttemptPhase.verify = refl
budget_not_blank RunAttemptPhase.summarize = refl
budget_not_blank RunAttemptPhase.terminal = refl

pub repeated_not_blank : (t : String) → is_empty (strip (repeated_reason t)) ≡ false
unfolding strip join_text
repeated_not_blank t = refl

cap_not_blank : is_empty (strip "catastrophic_round_budget_exceeded") ≡ false
unfolding strip
cap_not_blank = refl

-- `finish_run_attempt` never refuses the reasons that `_terminal_reason_after_event` gives.
reason_not_blank :
    (a : RunAttempt) (e : ToolEvent) (es : List ToolEvent) (r : String)
    → terminal_reason_after_event a e es ≡ some r
    → is_empty (strip r) ≡ false
reason_not_blank a e es r h = elim (reason_cases a e es r h) [
  | inl c ↦ rw (c.0) cap_not_blank
  | inr (inl b) ↦ rw b (budget_not_blank a.phase)
  | inr (inr t) ↦ rw t (repeated_not_blank e.tool_name)
]

accept-IsSound :
    (digest : Fields → String) (now : ℕ) (input : ToolEventInput) (s : Session)
    → IsCounted (count_round s.attempt)
    → IsSound (accept_event digest now input s).1.attempt
unfolding accept_event
accept-IsSound digest now input s c =
    let a = count_round s.attempt in
    let e = new_event digest input s.next_id a in
    let es = s.events ++ e ∷ [] in
    let b = (repetition_nudge_if_needed a e es).1 in
    let same = nudge-SameLife a e es in
    conclude-IsSound now e (terminal_reason_after_event a e es)
      (repetition_nudge_if_needed a e es).0
      (record { attempt = b; events = es; next_id = s.next_id + 1 }) (IsCounted-SameLife a b same c)
      (λ h. over_budget-SameLife a b same (not_terminal_within a e es h)) (reason_not_blank a e es)

-- A tool event, accepted or refused, keeps an attempt sound.
pub record-IsSound :
    (digest : Fields → String) (now : ℕ) (input : ToolEventInput) (s : Session)
    → IsSound s.attempt
    → IsSound (record_tool_event digest now input s).1.attempt
unfolding record_tool_event
record-IsSound digest now input s h =
    ground (arith, count-IsCounted s.attempt input.tool_name h, accept-IsSound digest now input s)

pub advance_keeps :
    (target : RunAttemptPhase) (a b : RunAttempt)
    → advance_phase target a ≡ ok b
    → (b.id ≡ a.id) × (b.round_count ≡ a.round_count)
unfolding advance_phase
advance_keeps target a b e = ground arith

pub finish_keeps :
    (now : ℕ) (st : RunAttemptStatus) (r : String) (a b : RunAttempt)
    → finish_run_attempt now st r a ≡ ok b
    → (b.id ≡ a.id) × (b.round_count ≡ a.round_count)
unfolding finish_run_attempt
finish_keeps now st r a b e = ground arith
