-- ===== src/RunAttempts/Histories.antt =====
-- Any history of calls of core/run_attempts.py on one attempt.
use bsnexus.Domain.{
  RunAttemptPhase, RunAttemptStatus, deliverable_status_eq, deliverable_type_eq,
  proof_aspect_status_eq, proof_aspect_type_eq, proof_state_eq, request_status_eq,
  run_attempt_phase_eq, run_attempt_status_eq, work_plan_status_eq, work_step_status_eq,
}
use bsnexus.Effects.{Result, err, ok}
use bsnexus.Json.{Fields}
use bsnexus.Models.{RunAttempt, ToolEvent}
use bsnexus.Prelude.{
  List, Option, String, [], arith, count_if, count_if-append, int_eq, nat_eq, none, option_eq, refl,
  some, string_eq, ℕ, ◌++◌, ◌+◌, ◌==◌, ◌∷◌, ◌≡◌, ◌≤◌,
}
use bsnexus.RunAttempts.Bounds.{
  IsSound, advance-IsSound, advance_keeps, finish-IsSound, finish_keeps, nudge-SameLife,
  record-IsSound,
}
use bsnexus.RunAttempts.Defs.{Session, ToolEventInput, advance_phase, finish_run_attempt}
use bsnexus.RunAttempts.Events.{
  accept_event, accept_llm_phase_output, conclude_event, count_round, new_event, record_tool_event,
  repetition_nudge_if_needed, terminal_reason_after_event,
}
use bsnexus.Store.{
  decision_has_id, deliverable_has_id, project_has_id, request_has_id, run_attempt_has_id,
  work_step_has_id,
}

-- one call, with the clock that it reads
pub data Call : Type 0 where
  tool_call : ℕ → ToolEventInput → Call
  advance : RunAttemptPhase → Call
  finish : ℕ → RunAttemptStatus → String → Call
  llm_output : Fields → Call

abbrev pub own_events : ℕ → List ToolEvent → ℕ
own_events attempt_id es = count_if (λ e. e.run_attempt_id == attempt_id) es

conclude_keeps :
    (now : ℕ) (e : ToolEvent) (reason nudge : Option String) (s : Session)
    → let t = (conclude_event now e reason nudge s).1 in
      (t.attempt.id ≡ s.attempt.id)
      × (t.attempt.round_count ≡ s.attempt.round_count)
      × (t.events ≡ s.events)
unfolding conclude_event
conclude_keeps now e none nudge s = (refl, refl, refl)
conclude_keeps now e (some reason) nudge s = ground arith

own_event_self : (e : ToolEvent) (i : ℕ) → e.run_attempt_id ≡ i → own_events i (e ∷ []) ≡ 1
own_event_self e i h = ground arith

accept-logged :
    (digest : Fields → String) (now : ℕ) (input : ToolEventInput) (s : Session)
    → own_events s.attempt.id s.events ≡ s.attempt.round_count
    → let t = (accept_event digest now input s).1 in
      own_events t.attempt.id t.events ≡ t.attempt.round_count
unfolding accept_event count_round new_event
accept-logged digest now input s h =
    let a = count_round s.attempt in
    let e = new_event digest input s.next_id a in
    let es = s.events ++ e ∷ [] in
    let nudged = repetition_nudge_if_needed a e es in
    let same = nudge-SameLife a e es in
    let keeps =
      conclude_keeps now e (terminal_reason_after_event a e es) nudged.0
        (record { attempt = nudged.1; events = es; next_id = s.next_id + 1 }) in
    rw (keeps.0, keeps.1, keeps.2, same.same_id, same.same_count)
      (omega (
        arith,
        h,
        count_if-append (λ (r : ToolEvent). r.run_attempt_id == s.attempt.id) s.events (e ∷ []),
        own_event_self e s.attempt.id refl,
      ))

-- the object that a call returns, or the old one after an exception
abbrev settle : Result RunAttempt → Session → Session
settle (ok a) s = record s { attempt = a }
settle (err e) s = s

module _ (digest : Fields → String) (sort_names : List String → List String) where
  -- an exception leaves the session as the call has left it
  unfoldable pub call : Call → Session → Session
  call (tool_call now input) s = (record_tool_event digest now input s).1
  call (advance target) s = settle (advance_phase target s.attempt) s
  call (finish now status reason) s = settle (finish_run_attempt now status reason s.attempt) s
  call (llm_output payload) s = record s {
    attempt = (accept_llm_phase_output sort_names payload s.attempt).1;
  }

  unfoldable pub calls : List Call → Session → Session
  calls [] s = s
  calls (c ∷ cs) s = calls cs (call c s)

  -- the session is sound, and the attempt has as many events as it has counted rounds
  pub record Holds (s : Session) : Type 0 where
    pub sound : IsSound s.attempt
    pub logged : own_events s.attempt.id s.events ≡ s.attempt.round_count

  tool-logged :
      (now : ℕ) (input : ToolEventInput) (s : Session)
      → own_events s.attempt.id s.events ≡ s.attempt.round_count
      → let t = (record_tool_event digest now input s).1 in
        own_events t.attempt.id t.events ≡ t.attempt.round_count
  unfolding record_tool_event
  tool-logged now input s h = ground (arith, accept-logged digest now input s)

  llm_output-IsSound :
      (payload : Fields) (a : RunAttempt)
      → IsSound a
      → IsSound (accept_llm_phase_output sort_names payload a).1
  unfolding accept_llm_phase_output
  llm_output-IsSound payload a s = ground arith

  llm_output_keeps :
      (payload : Fields) (a : RunAttempt)
      → let b = (accept_llm_phase_output sort_names payload a).1 in
        (b.id ≡ a.id) × (b.round_count ≡ a.round_count)
  unfolding accept_llm_phase_output
  llm_output_keeps payload a = ground arith

  settle-Holds :
      (r : Result RunAttempt) (s : Session)
      → Holds s
      → ((a : RunAttempt) → r ≡ ok a → IsSound a)
      → ((a : RunAttempt)
          → r ≡ ok a
          → (a.id ≡ s.attempt.id) × (a.round_count ≡ s.attempt.round_count))
      → Holds (settle r s)
  settle-Holds (ok a) s h sound keeps = record {
    sound = sound a refl;
    logged = let k = keeps a refl in rw (k.0, k.1) h.logged;
  }
  settle-Holds (err e) s h sound keeps = h

  call-Holds : (c : Call) (s : Session) → Holds s → Holds (call c s)
  unfolding call
  call-Holds (tool_call now input) s h = record {
    sound = record-IsSound digest now input s h.sound;
    logged = tool-logged now input s h.logged;
  }
  call-Holds (advance target) s h =
      settle-Holds (advance_phase target s.attempt) s h
        (λ a e. advance-IsSound target s.attempt a h.sound e)
        (λ a e. advance_keeps target s.attempt a e)
  call-Holds (finish now status reason) s h =
      settle-Holds (finish_run_attempt now status reason s.attempt) s h
        (λ a e. finish-IsSound now status reason s.attempt a h.sound e)
        (λ a e. finish_keeps now status reason s.attempt a e)
  call-Holds (llm_output payload) s h = record {
    sound = llm_output-IsSound payload s.attempt h.sound;
    logged = let k = llm_output_keeps payload s.attempt in rw (k.0, k.1) h.logged;
  }

  pub calls-Holds : (cs : List Call) (s : Session) → Holds s → Holds (calls cs s)
  unfolding calls
  calls-Holds [] s h = h
  calls-Holds (c ∷ cs) s h = calls-Holds cs (call c s) (call-Holds c s h)

  -- However the attempt is driven, from a sound session whose log has one event of the attempt for
  -- each counted round, the log keeps that and has at most 53 of them.
  pub attempt_bounded :
      (cs : List Call) (s : Session)
      → Holds s
      → let t = calls cs s in
        (own_events t.attempt.id t.events ≤ 53)
        × (own_events t.attempt.id t.events ≡ t.attempt.round_count)
  attempt_bounded cs s h =
      let k = calls-Holds cs s h in (omega (arith, k.logged, k.sound.bounded), k.logged)
