-- ===== src/Executor/Work/Turns.antt =====
-- core/run_attempt_executor.py: how a tool event and the end of an attempt leave the work phase.
-- the attempt is at work
use bsnexus.Domain.{
  RunAttemptPhase, RunAttemptStatus, deliverable_status_eq, deliverable_type_eq,
  proof_aspect_status_eq, proof_aspect_type_eq, proof_state_eq, request_status_eq,
  run_attempt_phase_eq, run_attempt_status_eq, work_plan_status_eq, work_step_status_eq,
}
use bsnexus.Effects.{Error, Result, Result-cases, err, ok}
use bsnexus.Executor.Defs.{
  Phase, WorkEnd, class_name, crashed, end_attempt, settled, terminated, tool_says,
}
use bsnexus.Executor.Work.{
  Turn, after_event, event_failed, event_recorded, goes_on, recorded, say, stops,
}
use bsnexus.Json.{Fields}
use bsnexus.Models.{RunAttempt, ToolEvent}
use bsnexus.Prelude.{
  Bool, Bool-cases, Option, String, [], arith, contains, false, inl, inr, int_eq, join_text, nat_eq,
  none, not, option_eq, refl, some, string_eq, true, ℕ, ◌++◌, ◌+◌, ◌==◌, ◌∙◌, ◌∷◌, ◌≡◌, ◌≤◌, ◌⊎◌,
}
use bsnexus.RunAttempts.Bounds.{nudge-SameLife}
use bsnexus.RunAttempts.Defs.{
  Session, ToolEventInput, ToolEventResult, allowed_tools_by_phase, closed, finish_run_attempt,
  is_running,
}
use bsnexus.RunAttempts.Events.{
  accept_event, conclude_event, count_round, new_event, record_tool_event,
  repetition_nudge_if_needed, terminal_reason_after_event, termination_status,
}
use bsnexus.Store.{
  decision_has_id, deliverable_has_id, project_has_id, request_has_id, run_attempt_has_id,
  work_step_has_id,
}

pub record IsAlive (a : RunAttempt) : Type 0 where
  pub runs : a.status ≡ RunAttemptStatus.running
  pub works : a.phase ≡ RunAttemptPhase.work

abbrev pub is_over : RunAttempt → Bool
is_over a = not (a.status == RunAttemptStatus.running)

-- the loop ends its attempt whenever it raises `_ToolLoopTerminated`, keeps it at work where it
-- returns, and has called the LLM at most so often
abbrev pub EndsWell : ℕ → WorkEnd → Type 0
EndsWell most (settled ph) = IsAlive ph.session.attempt × (ph.trips ≤ most)
EndsWell most (terminated reason ph) = (is_over ph.session.attempt ≡ true) × (ph.trips ≤ most)
EndsWell most (crashed e ph) = ph.trips ≤ most

abbrev pub TurnsWell : ℕ → Turn → Type 0
TurnsWell trips (goes_on ph) = IsAlive ph.session.attempt × (ph.trips ≡ trips)
TurnsWell trips (stops e) = EndsWell trips e

abbrev Lives : Result ToolEventResult × Session → Type 0
Lives (ok r, t) =
    ((r.terminated ≡ true) × (is_over t.attempt ≡ true))
    ⊎ ((r.terminated ≡ false) × IsAlive t.attempt)
Lives (err e, t) = Unit

finish_over :
    (now : ℕ) (status : RunAttemptStatus) (reason : String) (a b : RunAttempt)
    → finish_run_attempt now status reason a ≡ ok b
    → is_over b ≡ true
unfolding finish_run_attempt closed
finish_over now status reason a b e = ground arith

conclude-Lives :
    (now : ℕ) (event : ToolEvent) (reason nudge : Option String) (s : Session)
    → IsAlive s.attempt
    → Lives (conclude_event now event reason nudge s)
unfolding conclude_event
conclude-Lives now event none nudge s alive = inr (refl, alive)
conclude-Lives now event (some reason) nudge s alive =
    elim (Result-cases (finish_run_attempt now (termination_status reason) reason s.attempt)) [
      | inl (b, e) ↦
          rw (e, conclude_event)
            (inl (refl, finish_over now (termination_status reason) reason s.attempt b e))
      | inr (x, e) ↦ rw (e, conclude_event) tt
    ]

pub end-EndsWell :
    (now : ℕ) (status : RunAttemptStatus) (reason : String) (ph : Phase)
    → EndsWell ph.trips (end_attempt now status reason ph)
unfolding end_attempt
end-EndsWell now status reason ph =
    elim (Result-cases (finish_run_attempt now status reason ph.session.attempt)) [
      | inl (b, e) ↦
          rw (e, end_attempt) (finish_over now status reason ph.session.attempt b e, omega arith)
      | inr (x, e) ↦ rw (e, end_attempt) (omega arith)
    ]

accept-Lives :
    (digest : Fields → String) (now : ℕ) (input : ToolEventInput) (s : Session)
    → IsAlive s.attempt
    → Lives (accept_event digest now input s)
unfolding accept_event count_round
accept-Lives digest now input s alive =
    let a = count_round s.attempt in
    let event = new_event digest input s.next_id a in
    let events = s.events ++ event ∷ [] in
    let nudged = repetition_nudge_if_needed a event events in
    let same = nudge-SameLife a event events in
    conclude-Lives now event (terminal_reason_after_event a event events) nudged.0
      (record { attempt = nudged.1; events = events; next_id = s.next_id + 1 })
      (record { runs = same.same_status ∙ alive.runs; works = same.same_phase ∙ alive.works })

pub record-Lives :
    (digest : Fields → String) (now : ℕ) (input : ToolEventInput) (s : Session)
    → IsAlive s.attempt
    → Lives (record_tool_event digest now input s)
unfolding record_tool_event is_running
record-Lives digest now input s alive =
    let runs : is_running s.attempt ≡ true = ground (arith, alive.runs, alive.works) in
    let allowed = contains input.tool_name (allowed_tools_by_phase s.attempt.phase) in
    elim (Bool-cases allowed) [
      | inr h ↦ rw (runs, h, record_tool_event) tt
      | inl h ↦ rw (runs, h, record_tool_event) (accept-Lives digest now input s alive)
    ]

event_failed-EndsWell :
    (now : ℕ) (e : Error) (ph : Phase) → EndsWell ph.trips (event_failed now e ph)
unfolding event_failed
event_failed-EndsWell now e ph =
    elim (Bool-cases (ph.session.attempt.status == RunAttemptStatus.running)) [
      | inl h ↦
          rw (h, event_failed)
            (end-EndsWell now RunAttemptStatus.failed (join_text "tool_event_error:" (class_name e))
              ph)
      | inr h ↦ rw (h, event_failed) (rw h refl, omega arith)
    ]

after_event_keeps :
    (result : ToolEventResult) (ph : Phase)
    → ((after_event result ph).session ≡ ph.session) × ((after_event result ph).trips ≡ ph.trips)
unfolding after_event
after_event_keeps result ph = ground arith

pub recorded-TurnsWell :
    (now : ℕ) (call_id text : String) (r : Result ToolEventResult × Session) (ph : Phase)
    → Lives r
    → TurnsWell ph.trips (recorded now call_id text r ph)
unfolding recorded event_recorded
recorded-TurnsWell now call_id text (err e, s) ph lives =
    event_failed-EndsWell now e (record ph { session = s })
recorded-TurnsWell now call_id text (ok result, s) ph (inl (ends, over)) =
    rw ends (over, omega arith)
recorded-TurnsWell now call_id text (ok result, s) ph (inr (goes, alive)) =
    let told = say (tool_says call_id text) (record ph { session = s }) in
    let keeps = after_event_keeps result told in rw goes (rw (keeps.0, keeps.1) (alive, refl))

pub Turn-cases : (t : Turn) → ((ph : Phase) × (t ≡ goes_on ph)) ⊎ ((e : WorkEnd) × (t ≡ stops e))
Turn-cases (goes_on ph) = inl (ph, refl)
Turn-cases (stops e) = inr (e, refl)

pub EndsWell-up : (m n : ℕ) → m ≤ n → (e : WorkEnd) → EndsWell m e → EndsWell n e
EndsWell-up m n h (settled ph) (alive, trips) = (alive, omega (arith, h, trips))
EndsWell-up m n h (terminated reason ph) (over, trips) = (over, omega (arith, h, trips))
EndsWell-up m n h (crashed e ph) trips = omega (arith, h, trips)
