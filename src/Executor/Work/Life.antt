-- ===== src/Executor/Work/Life.antt =====
-- The work phase of core/run_attempt_executor.py: how it leaves its attempt, and how often it calls
-- the LLM.
use bsnexus.Domain.{RunAttemptStatus}
use bsnexus.Effects.{Result-cases}
use bsnexus.Executor.Defs.{
  Llm, Phase, ToolCall, Toolbox, WorkEnd, assistant_calls, assistant_says, invoke_tool_safely,
  max_no_work_nudges, user_says,
}
use bsnexus.Executor.Handoff.{or_else}
use bsnexus.Executor.Work.{
  after_reply, arguments_of, declaring, event_of, kept_writes, no_work_message, record_call,
  run_call, run_calls, run_work_phase, say, work_loop,
}
use bsnexus.Executor.Work.Turns.{
  EndsWell, EndsWell-up, IsAlive, Turn-cases, TurnsWell, end-EndsWell, record-Lives,
  recorded-TurnsWell,
}
use bsnexus.Json.{Fields}
use bsnexus.Prelude.{
  Bool, Bool-cases, List, Option-cases, String, [], arith, inl, inr, length, ltb, nat_beq, not,
  or_empty, refl, subst, suc, sym, zero, ℕ, ◌+◌, ◌||◌, ◌∷◌, ◌≡◌, ◌≤◌,
}
use bsnexus.RunAttempts.Bounds.{rounds}
use bsnexus.RunAttempts.Events.{record_tool_event}

module _ (digest : Fields → String) (summary_of : String → Fields → String) (now : ℕ)
    (tools : Toolbox) where
  declaring_keeps :
      (c : ToolCall) (ph : Phase)
      → ((declaring digest summary_of now tools c ph).session ≡ ph.session)
        × ((declaring digest summary_of now tools c ph).trips ≡ ph.trips)
  declaring_keeps c ph =
      elim (Option-cases (tools.declared ph.session.next_id c.name (arguments_of c))) [
        | inl e ↦ rw (e, declaring) (refl, refl)
        | inr (v, e) ↦ rw (e, declaring) (refl, refl)
      ]

  record_call-TurnsWell :
      (c : ToolCall) (reply : String × ℕ × List String) (trips : ℕ) (ph : Phase)
      → ph.trips ≡ trips
      → IsAlive ph.session.attempt
      → TurnsWell trips (record_call digest summary_of now tools c reply ph)
  unfolding record_call
  record_call-TurnsWell c (text, code, writes) trips ph same alive =
      let input =
        event_of digest summary_of now tools c.name (arguments_of c) (text, code, writes) in
      subst (λ n. TurnsWell n (record_call digest summary_of now tools c (text, code, writes) ph))
        same
        (recorded-TurnsWell now c.call_id text (record_tool_event digest now input ph.session)
          (record ph { written = kept_writes c.name code writes ph.written })
          (record-Lives digest now input ph.session alive))

  run_call-TurnsWell :
      (c : ToolCall) (ph : Phase)
      → IsAlive ph.session.attempt
      → TurnsWell ph.trips (run_call digest summary_of now tools c ph)
  unfolding run_call
  run_call-TurnsWell c ph alive =
      elim (Result-cases (invoke_tool_safely tools ph.session.next_id c.name (arguments_of c))) [
        | inl (reply, e) ↦
            rw (e, run_call)
              (let (session, trips) = declaring_keeps c ph in
                record_call-TurnsWell c reply ph.trips (declaring digest summary_of now tools c ph)
                  trips (subst (λ s. IsAlive s.attempt) (sym session) alive))
        | inr (x, e) ↦ rw (e, run_call) (omega arith)
      ]

  run_calls-TurnsWell :
      (cs : List ToolCall) (ph : Phase)
      → IsAlive ph.session.attempt
      → TurnsWell ph.trips (run_calls digest summary_of now tools cs ph)
  unfolding run_calls
  run_calls-TurnsWell [] ph alive = (alive, refl)
  run_calls-TurnsWell (c ∷ cs) ph alive =
      elim (Turn-cases (run_call digest summary_of now tools c ph)) [
        | inl (ph', e) ↦
            let (alive', same) = rw e at (run_call-TurnsWell c ph alive) in
            rw (e, run_calls)
              (subst (λ n. TurnsWell n (run_calls digest summary_of now tools cs ph')) same
                (run_calls-TurnsWell cs ph' alive'))
        | inr (x, e) ↦ rw (e, run_calls) (rw e at (run_call-TurnsWell c ph alive))
      ]

  -- after a reply: what holds of the rounds that are left holds of this one
  after_reply-EndsWell :
      (rest : ℕ → Phase → WorkEnd) (registry : Bool) (nudges most : ℕ) (cs : List ToolCall)
      (ph : Phase)
      → IsAlive ph.session.attempt
      → ph.trips ≤ most
      → ((n : ℕ) (p : Phase)
          → IsAlive p.session.attempt
          → p.trips ≡ ph.trips
          → EndsWell most (rest n p))
      → EndsWell most (after_reply digest summary_of now tools rest registry nudges cs ph)
  unfolding after_reply
  after_reply-EndsWell rest registry nudges most [] ph alive h ih =
      elim (Bool-cases (not registry || not (nat_beq (length ph.written) 0))) [
        | inl e ↦ rw (e, after_reply) (alive, h)
        | inr e ↦ elim (Bool-cases (ltb nudges max_no_work_nudges)) [
          | inl l ↦
              rw (e, l, after_reply)
                (ih (nudges + 1)
                  (say (user_says no_work_message)
                    (say (assistant_says (or_else ph.final_text "(no tool calls)")) ph))
                  alive refl)
          | inr l ↦
              rw (e, l, after_reply)
                (EndsWell-up ph.trips most h _ (
                  end-EndsWell now RunAttemptStatus.failed "failed_nonconvergent:no_workspace_write"
                    (record ph { final_text = "" })))
        ]
      ]
  after_reply-EndsWell rest registry nudges most (c ∷ cs) ph alive h ih =
      let start = say (assistant_calls ph.final_text (c ∷ cs)) ph in
      elim (Bool-cases (not registry)) [
        | inl e ↦ rw (e, after_reply) (alive, h)
        | inr e ↦ elim (Turn-cases (run_calls digest summary_of now tools (c ∷ cs) start)) [
          | inl (ph', t) ↦
              let (alive', same) = rw t at (run_calls-TurnsWell (c ∷ cs) start alive) in
              rw (e, t, after_reply) (ih nudges ph' alive' same)
          | inr (x, t) ↦
              rw (e, t, after_reply)
                (EndsWell-up ph.trips most h x (rw t at (run_calls-TurnsWell (c ∷ cs) start alive)))
        ]
      ]

  module _ (llm : Llm) (registry : Bool) where
    work_loop-EndsWell :
        (left nudges : ℕ) (ph : Phase)
        → IsAlive ph.session.attempt
        → EndsWell
            (ph.trips + left)
            (work_loop digest summary_of now tools llm registry left nudges ph)
    unfolding work_loop
    work_loop-EndsWell zero nudges ph alive =
        EndsWell-up ph.trips (ph.trips + 0) (omega arith) _
          (end-EndsWell now RunAttemptStatus.timed_out "work_loop_iteration_cap" ph)
    work_loop-EndsWell (suc left) nudges ph alive =
        elim (Result-cases (llm ph.trips ph.messages registry)) [
          | inl (reply, e) ↦
              rw (e, work_loop)
                (after_reply-EndsWell (work_loop digest summary_of now tools llm registry left)
                  registry nudges (ph.trips + suc left) reply.tool_calls
                  (record ph { trips = ph.trips + 1; final_text = or_empty reply.output_ref }) alive
                  (omega arith)
                  (λ n p a same.
                    EndsWell-up (p.trips + left) (ph.trips + suc left) (omega (arith, same)) _
                      (work_loop-EndsWell left n p a)))
          | inr (x, e) ↦ rw (e, work_loop) (omega arith)
        ]

    -- A work phase that starts with its attempt at work in phase `work` calls the LLM at most once a
    -- round. It returns with the attempt still at work; it raises `_ToolLoopTerminated` only when the
    -- attempt has ended; an exception of the LLM, of a tool or of the attempt's end is all else.
    pub run_work_phase-EndsWell :
        (rounds : ℕ) (ph : Phase)
        → IsAlive ph.session.attempt
        → EndsWell
            (ph.trips + rounds)
            (run_work_phase digest summary_of now tools llm registry rounds ph)
    unfolding run_work_phase
    run_work_phase-EndsWell rounds ph alive =
        work_loop-EndsWell rounds 0 (record ph { final_text = "" }) alive
