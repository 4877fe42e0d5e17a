-- ===== src/RunAttempts/Endings.antt =====
-- How and when `record_tool_event` of core/run_attempts.py ends an attempt.
use bsnexus.Domain.{
  RunAttemptPhase, RunAttemptStatus, deliverable_status_eq, deliverable_type_eq,
  proof_aspect_status_eq, proof_aspect_type_eq, proof_state_eq, request_status_eq,
  run_attempt_phase_eq, run_attempt_status_eq, work_plan_status_eq, work_step_status_eq,
}
use bsnexus.Effects.{ok}
use bsnexus.Json.{Fields}
use bsnexus.Models.{RunAttempt, ToolEvent}
use bsnexus.Prelude.{
  List, Option, String, [], arith, contains, count_if, false, if◌then◌else◌, inl, inr, int_eq,
  is_infix, join_text, leb, nat_eq, none, option_eq, refl, some, string_eq, true, ℕ, ◌++◌, ◌+◌, ◌∙◌,
  ◌∷◌, ◌≡◌, ◌⊎◌,
}
use bsnexus.RunAttempts.Bounds.{
  IsSound, SameLife, budget_not_blank, count-IsCounted, nudge-SameLife, over_budget,
  repeated_not_blank,
}
use bsnexus.RunAttempts.Defs.{
  Session, ToolEventInput, ToolEventResult, allowed_tools_by_phase, is_running,
}
use bsnexus.RunAttempts.Events.{
  accept_event, budget_reason, conclude_event, count_round, new_event, recent_events,
  record_tool_event, repeated_reason, repetition_nudge_if_needed, same_call,
  terminal_reason_after_event, termination_status,
}
use bsnexus.Store.{
  decision_has_id, deliverable_has_id, project_has_id, request_has_id, run_attempt_has_id,
  work_step_has_id,
}

-- `_terminal_reason_after_event` without its first test
abbrev pub reason_without_cap : RunAttempt → ToolEvent → List ToolEvent → Option String
reason_without_cap a event events =
    if over_budget a
    then some (budget_reason a.phase)
    else if leb 4 (count_if (same_call event) (recent_events 4 a.id events))
    then some (repeated_reason event.tool_name)
    else none

-- The catastrophic cap never decides: for a sound, running attempt and an allowed tool the reason
-- is the one that the phase budget and the repetition test give without it.
pub cap_never_decides :
    (a : RunAttempt) (name : String) (e : ToolEvent) (es : List ToolEvent)
    → IsSound a
    → is_running a ≡ true
    → contains name (allowed_tools_by_phase a.phase) ≡ true
    → terminal_reason_after_event (count_round a) e es ≡ reason_without_cap (count_round a) e es
unfolding terminal_reason_after_event
cap_never_decides a name e es s r c = ground (arith, count-IsCounted a name s r c)

repeated_is_failed : (t : String) → termination_status (repeated_reason t) ≡ RunAttemptStatus.failed
unfolding join_text is_infix
repeated_is_failed t = refl

budget_is_timed_out :
    (p : RunAttemptPhase) → termination_status (budget_reason p) ≡ RunAttemptStatus.timed_out
unfolding join_text is_infix
budget_is_timed_out RunAttemptPhase.prepare = refl
budget_is_timed_out RunAttemptPhase.work = refl
budget_is_timed_out RunAttemptPhase.verify = refl
budget_is_timed_out RunAttemptPhase.summarize = refl
budget_is_timed_out RunAttemptPhase.terminal = refl

-- what a result says of the attempt that it leaves
abbrev pub Ends : RunAttemptPhase → ToolEventResult → RunAttempt → Type 0
Ends p r a =
    ((r.terminated ≡ false) × (r.terminal_reason ≡ none) × (is_running a ≡ true))
    ⊎ ((r.terminated ≡ true)
        × (a.phase ≡ RunAttemptPhase.terminal)
        × (r.terminal_reason ≡ some (repeated_reason r.event.tool_name))
        × (a.status ≡ RunAttemptStatus.failed))
    ⊎ ((r.terminated ≡ true)
        × (a.phase ≡ RunAttemptPhase.terminal)
        × (r.terminal_reason ≡ some (budget_reason p))
        × (a.status ≡ RunAttemptStatus.timed_out))

conclude-Ends :
    (now : ℕ) (e : ToolEvent) (reason nudge : Option String) (s : Session) (p : RunAttemptPhase)
    → is_running s.attempt ≡ true
    → ((reason ≡ none)
        ⊎ (reason ≡ some (repeated_reason e.tool_name))
        ⊎ (reason ≡ some (budget_reason p)))
    → (r : ToolEventResult) (t : Session) → conclude_event now e reason nudge s ≡ (ok r, t)
    → Ends p r t.attempt
unfolding conclude_event is_running
conclude-Ends now e none nudge s p run c r t h = inl (ground arith)
conclude-Ends now e (some reason) nudge s p run (inl c) r t h = absurd (cc)
conclude-Ends now e (some reason) nudge s p run (inr (inl c)) r t h =
    inr (inl (ground (arith, repeated_not_blank e.tool_name, repeated_is_failed e.tool_name, c)))
conclude-Ends now e (some reason) nudge s p run (inr (inr c)) r t h =
    inr (inr (ground (arith, budget_not_blank p, budget_is_timed_out p, c)))

record_accepted :
    (digest : Fields → String) (now : ℕ) (input : ToolEventInput) (s : Session)
    → (r : ToolEventResult) (t : Session) → record_tool_event digest now input s ≡ (ok r, t)
    → (is_running s.attempt ≡ true)
      × (contains input.tool_name (allowed_tools_by_phase s.attempt.phase) ≡ true)
      × (accept_event digest now input s ≡ (ok r, t))
unfolding record_tool_event
record_accepted digest now input s r t e = ground arith

is_running-SameLife : (a b : RunAttempt) → SameLife a b → is_running b ≡ is_running a
unfolding is_running
is_running-SameLife a b same = rw (same.same_status, same.same_phase)

is_running-count_round : (a : RunAttempt) → is_running (count_round a) ≡ is_running a
unfolding is_running count_round
is_running-count_round a = refl

reason_kinds :
    (a : RunAttempt) (name : String) (e : ToolEvent) (es : List ToolEvent)
    → IsSound a
    → is_running a ≡ true
    → contains name (allowed_tools_by_phase a.phase) ≡ true
    → let reason = terminal_reason_after_event (count_round a) e es in
      (reason ≡ none)
      ⊎ (reason ≡ some (repeated_reason e.tool_name))
      ⊎ (reason ≡ some (budget_reason (count_round a).phase))
reason_kinds a name e es s r c = ground (arith, cap_never_decides a name e es s r c)

phase-count_round : (a : RunAttempt) → (count_round a).phase ≡ a.phase
unfolding count_round
phase-count_round a = refl

accept-Ends :
    (digest : Fields → String) (now : ℕ) (input : ToolEventInput) (s : Session)
    → IsSound s.attempt
    → is_running s.attempt ≡ true
    → contains input.tool_name (allowed_tools_by_phase s.attempt.phase) ≡ true
    → (r : ToolEventResult) (t : Session) → accept_event digest now input s ≡ (ok r, t)
    → Ends (count_round s.attempt).phase r t.attempt
unfolding accept_event
accept-Ends digest now input s h run may r t e =
    let a = count_round s.attempt in
    let event = new_event digest input s.next_id a in
    let es = s.events ++ event ∷ [] in
    let nudged = repetition_nudge_if_needed a event es in
    conclude-Ends now event (terminal_reason_after_event a event es) nudged.0
      (record { attempt = nudged.1; events = es; next_id = s.next_id + 1 }) a.phase
      (is_running-SameLife a nudged.1 (nudge-SameLife a event es)
        ∙ is_running-count_round s.attempt
        ∙ run)
      (reason_kinds s.attempt input.tool_name event es h run may) r t e

-- An accepted tool event either leaves a sound attempt running, or ends it: as `failed` with the reason
-- `repeated_tool_call`, or as `timed_out` with the budget reason of the phase it was in.
pub record-Ends :
    (digest : Fields → String) (now : ℕ) (input : ToolEventInput) (s : Session)
    → IsSound s.attempt
    → (r : ToolEventResult) (t : Session) → record_tool_event digest now input s ≡ (ok r, t)
    → Ends s.attempt.phase r t.attempt
record-Ends digest now input s h r t e =
    let (run, may, accepted) = record_accepted digest now input s r t e in
    rw (phase-count_round s.attempt) at (accept-Ends digest now input s h run may r t accepted)
