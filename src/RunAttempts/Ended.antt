-- ===== src/RunAttempts/Ended.antt =====
-- What the calls of core/run_attempts.py do to an attempt that has ended.
-- the attempt is not `running`, or its phase is the last one
use bsnexus.Domain.{RunAttemptPhase, RunAttemptStatus}
use bsnexus.Effects.{Result-cases, ok}
use bsnexus.Json.{Fields}
use bsnexus.Models.{RunAttempt}
use bsnexus.Prelude.{
  Bool, Bool-cases, List, String, [], arith, false, filter, inl, inr, refl, subst, sym, true, ℕ,
  ◌∙◌, ◌∷◌, ◌≡◌, ◌≢◌, ◌⊎◌,
}
use bsnexus.RunAttempts.Defs.{Session, advance_phase, closed, finish_run_attempt, is_running}
use bsnexus.RunAttempts.Events.{accept_llm_phase_output, record_tool_event}
use bsnexus.RunAttempts.Histories.{Call, advance, call, calls, finish, llm_output, tool_call}

abbrev pub HasEnded : RunAttempt → Type 0
HasEnded a = (a.status ≢ RunAttemptStatus.running) ⊎ (a.phase ≡ RunAttemptPhase.terminal)

-- `finish_run_attempt` or `accept_llm_phase_output`
abbrev pub is_report : Call → Bool
is_report (tool_call now input) = false
is_report (advance target) = false
is_report (finish now status reason) = true
is_report (llm_output payload) = true

ended_stops : (a : RunAttempt) → HasEnded a → is_running a ≡ false
unfolding is_running
ended_stops a (inl h) = ground arith
ended_stops a (inr h) = ground arith

module _ (digest : Fields → String) (sort_names : List String → List String) where
  work_frozen :
      (c : Call) (s : Session)
      → is_report c ≡ false
      → is_running s.attempt ≡ false
      → call digest sort_names c s ≡ s
  unfolding call record_tool_event advance_phase
  work_frozen (tool_call now input) s w h = ground arith
  work_frozen (advance target) s w h = ground arith
  work_frozen (finish now st r) s w h = absurd (cc)
  work_frozen (llm_output f) s w h = absurd (cc)

  finish_ends :
      (now : ℕ) (st : RunAttemptStatus) (reason : String) (a b : RunAttempt)
      → finish_run_attempt now st reason a ≡ ok b
      → HasEnded b
  unfolding finish_run_attempt closed
  finish_ends now st reason a b e = inr (ground arith)

  llm_output_ends :
      (payload : Fields) (a : RunAttempt)
      → HasEnded a
      → HasEnded (accept_llm_phase_output sort_names payload a).1
  unfolding accept_llm_phase_output
  llm_output_ends payload a h = ground arith

  report_ends :
      (c : Call) (s : Session)
      → is_report c ≡ true
      → HasEnded s.attempt
      → HasEnded (call digest sort_names c s).attempt
        × ((call digest sort_names c s).events ≡ s.events)
  unfolding call
  report_ends (tool_call now input) s w h = absurd (cc)
  report_ends (advance target) s w h = absurd (cc)
  report_ends (finish now st r) s w h =
      elim (Result-cases (finish_run_attempt now st r s.attempt)) [
        | inl (b, e) ↦ rw (e, call) (finish_ends now st r s.attempt b e, refl)
        | inr (x, e) ↦ rw (e, call) (h, refl)
      ]
  report_ends (llm_output f) s w h = (llm_output_ends f s.attempt h, refl)

  -- An attempt that has ended stays ended, whatever is called on it: it is not `running` or its
  -- phase is `terminal`, its log is as before, and the tool events and phase changes
  -- of the history have no effect, so that the session is the one that the calls of
  -- `finish_run_attempt` and `accept_llm_phase_output` alone leave.
  pub ended_is_frozen :
      (cs : List Call) (s : Session)
      → HasEnded s.attempt
      → HasEnded (calls digest sort_names cs s).attempt
        × ((calls digest sort_names cs s).events ≡ s.events)
        × (calls digest sort_names cs s ≡ calls digest sort_names (filter is_report cs) s)
  unfolding calls
  ended_is_frozen [] s h = (h, refl, refl)
  ended_is_frozen (c ∷ cs) s h = elim (Bool-cases (is_report c)) [
    | inl e ↦
        let t = call digest sort_names c s in
        let (ends, same_log) = report_ends c s e h in
        let (ended, log, same) = ended_is_frozen cs t ends in (ended, log ∙ same_log, rw e same)
    | inr e ↦ rw e (
        subst
          (λ (t : Session).
            HasEnded (calls digest sort_names cs t).attempt
            × ((calls digest sort_names cs t).events ≡ s.events)
            × (calls digest sort_names cs t ≡ calls digest sort_names (filter is_report cs) s))
          (sym (work_frozen c s e (ended_stops s.attempt h))) (ended_is_frozen cs s h))
  ]
