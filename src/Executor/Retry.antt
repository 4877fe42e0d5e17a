-- ===== src/Executor/Retry.antt =====
-- core/run_attempt_executor.py: the retries on verifier feedback, `_aspect_feedback_retry_loop`.
--
-- The count `telemetry["aspect_retries"]`, which no code but its own tests reads, is left out.
pub mod Life
use bsnexus.Domain.{
  ProofAspectStatus, RunAttemptPhase, RunAttemptStatus, deliverable_status_eq, deliverable_type_eq,
  proof_aspect_status_eq, proof_aspect_type_eq, proof_state_eq, request_status_eq,
  run_attempt_phase_eq, run_attempt_status_eq, work_plan_status_eq, work_step_status_eq,
}
use bsnexus.Effects.{Result, err, ok}
use bsnexus.Executor.Defs.{
  Llm, Message, Phase, Toolbox, WorkEnd, aspect_retry_budget_floor, assistant_says, crashed,
  end_attempt, max_aspect_retries, max_aspect_retry_rounds, max_work_loop_iterations, settled,
  terminated, user_says,
}
use bsnexus.Executor.Handoff.{or_else}
use bsnexus.Executor.Work.{run_work_phase, say, work_rounds}
use bsnexus.Json.{Fields, Value}
use bsnexus.Models.{Handoff, RunAttempt}
use bsnexus.Prelude.{
  Bool, List, Option, String, [], filter, if◌then◌else◌, int_eq, length, ltb, nat_beq, nat_eq, none,
  not, option_eq, some, string_eq, suc, zero, ℕ, ◌&&◌, ◌-◌, ◌==◌, ◌∷◌,
}
use bsnexus.RunAttempts.Bounds.{rounds}
use bsnexus.RunAttempts.Defs.{phase_round_budgets}
use bsnexus.Store.{
  decision_has_id, deliverable_has_id, project_has_id, request_has_id, run_attempt_has_id,
  work_step_has_id,
}
use bsnexus.Verification.Run.{AspectProbeResult, probe_aspects}
use bsnexus.Verification.Runners.{Host}
use bsnexus.Verification.Specs.{AspectSpec}

pub record Machine : Type 0 where
  pub venv_host : Host
  pub hosts : ℕ → Host
  pub heuristic : List AspectSpec

-- What the executor is given. `machine n` is the machine when `n` calls of the LLM have been made,
-- with the aspects that `select_verification_aspects` finds then; `has_workspace` says that there is a
-- tool registry; `prompt` is `_build_messages`,
-- `feedback` is `_format_aspect_feedback`, `request_text` the request for a handoff record.
pub record Env : Type 0 where
  pub lower : String → String
  pub str_of : Value → String
  pub loads : String → Option Value
  pub digest : Fields → String
  pub summary_of : String → Fields → String
  pub sort_names : List String → List String
  pub llm : Llm
  pub tools : Toolbox
  pub has_workspace : Bool
  pub machine : ℕ → Machine
  pub prompt : Option Handoff → List Message
  pub feedback : List AspectProbeResult → ℕ → String
  pub request_text : Phase → String
  pub publish : Result (Unit {0})

-- a raise of the loop passes what was to follow
unfoldable pub and_then : WorkEnd → (Phase → WorkEnd) → WorkEnd
and_then (settled ph) f = f ph
and_then (terminated reason ph) f = terminated reason ph
and_then (crashed e ph) f = crashed e ph

-- `verification_contract`, null where none is declared
abbrev pub or_null : Option Value → Value
or_null none = Value.null
or_null (some v) = v

abbrev pub is_failure : AspectProbeResult → Bool
is_failure r = r.blocking && not (r.outcome.status == ProofAspectStatus.passed)

-- `remaining < ASPECT_RETRY_BUDGET_FLOOR`
abbrev pub below_floor : RunAttempt → Bool
below_floor a =
    ltb (phase_round_budgets RunAttemptPhase.work - work_rounds a) aspect_retry_budget_floor

module _ (env : Env) (now : ℕ) where
  abbrev pub work : ℕ → Phase → WorkEnd
  work rounds ph =
      run_work_phase env.digest env.summary_of now env.tools env.llm env.has_workspace rounds ph

  unfoldable pub probe : Phase → Result (List AspectProbeResult)
  probe ph =
      let machine = env.machine ph.trips in
      probe_aspects env.lower env.str_of machine.venv_host machine.hosts machine.heuristic
        (or_null ph.contract)

  -- the messages that a retry starts with
  abbrev pub told_failures : List AspectProbeResult → ℕ → Phase → Phase
  told_failures failures left ph =
      say (user_says (env.feedback failures left))
        (say (assistant_says (or_else ph.final_text "(continued)")) ph)

  -- one turn of the loop after its probe; `rest` is the loop with the retries that are left
  unfoldable pub after_probe : (Phase → WorkEnd) → ℕ → List AspectProbeResult → Phase → WorkEnd
  unfolding end_attempt and_then
  after_probe rest left [] ph = settled ph
  after_probe rest left (f ∷ failures) ph =
      if below_floor ph.session.attempt
      then end_attempt now RunAttemptStatus.timed_out "aspect_retry_budget_exhausted" ph
      else and_then (work max_aspect_retry_rounds (told_failures (f ∷ failures) left ph)) rest

  unfoldable pub retry_loop : ℕ → Phase → WorkEnd
  unfolding after_probe probe
  retry_loop zero ph = settled ph
  retry_loop (suc left) ph = elim (probe ph) [
    | err e ↦ settled ph
    | ok results ↦ after_probe (retry_loop left) left (filter is_failure results) ph
  ]

  abbrev pub retries_apply : Phase → Bool
  retries_apply ph = not (nat_beq (length ph.written) 0) && env.has_workspace

  -- the body of the `try` in `_execute_one_attempt`
  unfoldable pub work_and_retry : Phase → WorkEnd
  unfolding and_then retry_loop
  work_and_retry ph =
      and_then (work max_work_loop_iterations ph)
        (λ ph'. if retries_apply ph' then retry_loop max_aspect_retries ph' else settled ph')
