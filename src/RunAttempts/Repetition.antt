-- ===== src/RunAttempts/Repetition.antt =====
-- The repetition test of core/run_attempts.py against the latest calls of the attempt.
use bsnexus.Domain.{
  deliverable_status_eq, deliverable_type_eq, proof_aspect_status_eq, proof_aspect_type_eq,
  proof_state_eq, request_status_eq, run_attempt_phase_eq, run_attempt_status_eq,
  work_plan_status_eq, work_step_status_eq,
}
use bsnexus.Models.{RunAttempt, ToolEvent}
use bsnexus.Prelude.{
  All, Bool, List, [], any, arith, count_if, false, filter, filter-append, if◌then◌else◌, int_eq,
  leb, length, ltb, nat_eq, none, not, option_eq, order_by, order_by-append_first, refl, some,
  string_eq, take, true, ℕ, ◌&&◌, ◌++◌, ◌<◌, ◌==◌, ◌∷◌, ◌≡◌, ◌≤◌,
}
use bsnexus.RunAttempts.Defs.{
  catastrophic_round_cap, phase_round_budgets, repetition_termination_count, repetition_window,
}
use bsnexus.RunAttempts.Events.{
  nudge_message, recent_events, repeated_reason, repetition_nudge_if_needed, same_call,
  terminal_reason_after_event,
}
use bsnexus.Store.{
  decision_has_id, deliverable_has_id, project_has_id, request_has_id, run_attempt_has_id,
  work_step_has_id,
}

abbrev later : ToolEvent → ToolEvent → Bool
later a b = ltb b.round_index a.round_index

abbrev own : ℕ → ToolEvent → Bool
own i e = e.run_attempt_id == i

-- the attempt's events, the latest first
unfoldable pub newest_first : ℕ → List ToolEvent → List ToolEvent
newest_first i es = order_by later (filter (own i) es)

-- every event of the attempt was logged in a round that is counted
abbrev pub IsOrdered : ℕ → ℕ → List ToolEvent → Type 0
IsOrdered i n es = All (λ e. own i e ≡ true → e.round_index ≤ n) es

filter-later :
    (i n : ℕ) (e : ToolEvent) (es : List ToolEvent)
    → n < e.round_index
    → IsOrdered i n es
    → All (λ x. later e x ≡ true) (filter (own i) es)
filter-later i n e [] late h = tt
filter-later i n e (x ∷ es) late h = ground (arith, filter-later i n e es late h.1, h.0)

-- A new event of the attempt comes before all that are logged.
pub newest_first-append :
    (i n : ℕ) (e : ToolEvent) (es : List ToolEvent)
    → own i e ≡ true
    → n < e.round_index
    → IsOrdered i n es
    → newest_first i (es ++ e ∷ []) ≡ e ∷ newest_first i es
unfolding newest_first
newest_first-append i n e es mine late h =
    rw (filter-append (own i) es (e ∷ []))
      (rw mine (order_by-append_first later e (filter (own i) es) (filter-later i n e es late h)))

-- the same tool with the same arguments' hash
abbrev pub repeats : ToolEvent → ToolEvent → Bool
repeats e older = older.tool_name == e.tool_name && older.args_hash == e.args_hash

-- the three latest calls exist and were this call
abbrev pub repeats_three : ToolEvent → List ToolEvent → Bool
repeats_three e (a ∷ b ∷ c ∷ older) = repeats e a && repeats e b && repeats e c
repeats_three e older = false

-- the latest call exists and was this call
abbrev pub repeats_last : ToolEvent → List ToolEvent → Bool
repeats_last e [] = false
repeats_last e (a ∷ older) = repeats e a

four_same :
    (e : ToolEvent) (older : List ToolEvent)
    → same_call e e ≡ true
    → leb repetition_termination_count (count_if (same_call e) (take repetition_window (e ∷ older)))
      ≡ repeats_three e older
four_same e [] h = ground arith
four_same e (a ∷ []) h = ground arith
four_same e (a ∷ b ∷ []) h = ground arith
four_same e (a ∷ b ∷ c ∷ older) h = ground arith

two_same :
    (a : RunAttempt) (e : ToolEvent) (older : List ToolEvent)
    → same_call e e ≡ true
    → (if ltb (length (take 2 (e ∷ older))) 2
        then none
        else if any (λ r. not (same_call e r)) (take 2 (e ∷ older))
        then none
        else some nudge_message)
      ≡ (if repeats_last e older then some nudge_message else none)
two_same a e [] h = ground arith
two_same a e (x ∷ older) h = ground arith

recent-newest_first :
    (n i : ℕ) (es : List ToolEvent) → recent_events n i es ≡ take n (newest_first i es)
unfolding recent_events newest_first
recent-newest_first n i es = refl

same_call_self : (e : ToolEvent) → same_call e e ≡ true
same_call_self e =
    rw ((string_eq.beq_iff e.tool_name e.tool_name).1 refl)
      ((string_eq.beq_iff e.args_hash e.args_hash).1 refl)

recent_first :
    (k i n : ℕ) (e : ToolEvent) (es : List ToolEvent)
    → e.run_attempt_id ≡ i
    → n < e.round_index
    → IsOrdered i n es
    → recent_events k i (es ++ e ∷ []) ≡ take k (e ∷ newest_first i es)
recent_first k i n e es mine late h =
    rw (recent-newest_first k i (es ++ e ∷ []))
      (rw (newest_first-append i n e es ((nat_eq.beq_iff e.run_attempt_id i).1 mine) late h) refl)

-- For an event of the attempt in a later round than all that are logged, while the attempt is below
-- the catastrophic cap and within the budget of its phase: `_terminal_reason_after_event` gives the
-- reason `repeated_tool_call` when the attempt's three latest calls before this one were this very
-- call, the same tool with the same arguments' hash, and none otherwise; the nudge is sent
-- exactly when the latest call before this one was this very call.
pub repetition_exact :
    (a : RunAttempt) (e : ToolEvent) (es : List ToolEvent) (n : ℕ)
    → e.run_attempt_id ≡ a.id
    → n < e.round_index
    → IsOrdered a.id n es
    → a.round_count < catastrophic_round_cap
    → a.telemetry.phase_rounds a.phase ≤ phase_round_budgets a.phase
    → (terminal_reason_after_event a e (es ++ e ∷ []) ≡ (
        if repeats_three e (newest_first a.id es)
        then some (repeated_reason e.tool_name)
        else none))
      × ((repetition_nudge_if_needed a e (es ++ e ∷ [])).0
          ≡ (if repeats_last e (newest_first a.id es) then some nudge_message else none))
unfolding terminal_reason_after_event repetition_nudge_if_needed
repetition_exact a e es n mine late h low within =
    let same = four_same e (newest_first a.id es) (same_call_self e) in
    let nudged = two_same a e (newest_first a.id es) (same_call_self e) in
    let latest = recent_first repetition_window a.id n e es mine late h in
    let latest_two = recent_first 2 a.id n e es mine late h in
    (ground (arith, same, latest), ground (arith, nudged, latest_two))
