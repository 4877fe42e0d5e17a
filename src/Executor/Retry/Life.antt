-- ===== src/Executor/Retry/Life.antt =====
-- `_aspect_feedback_retry_loop` of core/run_attempt_executor.py: how the whole work of an attempt ends.
use bsnexus.Domain.{RunAttemptStatus}
use bsnexus.Effects.{Result-cases}
use bsnexus.Executor.Defs.{Phase, WorkEnd, crashed, max_aspect_retry_rounds, settled, terminated}
use bsnexus.Executor.Retry.{
  Env, after_probe, and_then, below_floor, is_failure, probe, retries_apply, retry_loop,
  told_failures, work_and_retry,
}
use bsnexus.Executor.Work.Life.{run_work_phase-EndsWell}
use bsnexus.Executor.Work.Turns.{EndsWell, EndsWell-up, IsAlive, end-EndsWell}
use bsnexus.Prelude.{
  Bool-cases, List, [], arith, filter, if◌then◌else◌, inl, inr, suc, zero, ℕ, ◌*◌, ◌+◌, ◌∷◌, ◌≤◌,
}
use bsnexus.Verification.Run.{AspectProbeResult}

and_then-EndsWell :
    (m n : ℕ) (e : WorkEnd) (f : Phase → WorkEnd)
    → m ≤ n
    → EndsWell m e
    → ((ph : Phase) → IsAlive ph.session.attempt → ph.trips ≤ m → EndsWell n (f ph))
    → EndsWell n (and_then e f)
unfolding and_then
and_then-EndsWell m n (settled ph) f h w k = k ph w.0 w.1
and_then-EndsWell m n (terminated reason ph) f h w k = (w.0, omega (arith, h, w.1))
and_then-EndsWell m n (crashed e ph) f h w k = omega (arith, h, w)

-- the trips that `left` retries can add
abbrev retry_trips : ℕ → ℕ
retry_trips left = left * max_aspect_retry_rounds

module _ (env : Env) (now : ℕ) where
  after_probe-EndsWell :
      (rest : Phase → WorkEnd) (left n : ℕ) (failures : List AspectProbeResult) (ph : Phase)
      → IsAlive ph.session.attempt
      → ph.trips + 10 ≤ n
      → ((p : Phase) → IsAlive p.session.attempt → p.trips ≤ ph.trips + 10 → EndsWell n (rest p))
      → EndsWell n (after_probe env now rest left failures ph)
  unfolding after_probe
  after_probe-EndsWell rest left n [] ph alive h k = (alive, omega (arith, h))
  after_probe-EndsWell rest left n (f ∷ failures) ph alive h k =
      elim (Bool-cases (below_floor ph.session.attempt)) [
        | inl e ↦
            rw (e, after_probe)
              (EndsWell-up ph.trips n (omega (arith, h)) _
                (end-EndsWell now RunAttemptStatus.timed_out "aspect_retry_budget_exhausted" ph))
        | inr e ↦
            rw (e, after_probe)
              (and_then-EndsWell (ph.trips + 10) n _ rest h
                (run_work_phase-EndsWell env.digest env.summary_of now env.tools env.llm
                  env.has_workspace 10 (told_failures env now (f ∷ failures) left ph) alive)
                k)
      ]

  retry_loop-EndsWell :
      (left n : ℕ) (ph : Phase)
      → IsAlive ph.session.attempt
      → ph.trips + retry_trips left ≤ n
      → EndsWell n (retry_loop env now left ph)
  unfolding retry_loop
  retry_loop-EndsWell zero n ph alive h = (alive, omega (arith, h))
  retry_loop-EndsWell (suc left) n ph alive h = elim (Result-cases (probe env now ph)) [
    | inl (results, e) ↦
        rw (e, retry_loop)
          (after_probe-EndsWell (retry_loop env now left) left n (filter is_failure results) ph
            alive (omega (arith, h))
            (λ p a t. retry_loop-EndsWell left n p a (omega (arith, h, t))))
    | inr (x, e) ↦ rw (e, retry_loop) (alive, omega (arith, h))
  ]

  -- The work of an attempt that starts at work in phase `work` calls the LLM at most 100 times, however
  -- often the verifier sends it back. It returns with the attempt still at work, and it raises
  -- `_ToolLoopTerminated` only when the attempt has ended.
  pub work_and_retry-EndsWell :
      (ph : Phase)
      → IsAlive ph.session.attempt
      → EndsWell (ph.trips + 100) (work_and_retry env now ph)
  unfolding work_and_retry
  work_and_retry-EndsWell ph alive =
      and_then-EndsWell (ph.trips + 80) (ph.trips + 100) _ _ (omega arith)
        (run_work_phase-EndsWell env.digest env.summary_of now env.tools env.llm env.has_workspace
          80 ph alive)
        (λ p a t. after_work p a t)
    where
      after_work :
          (p : Phase)
          → IsAlive p.session.attempt
          → p.trips ≤ ph.trips + 80
          → EndsWell
              (ph.trips + 100)
              (if retries_apply env now p then retry_loop env now 2 p else settled p)
      after_work p a t = elim (Bool-cases (retries_apply env now p)) [
        | inl e ↦ rw e (retry_loop-EndsWell 2 (ph.trips + 100) p a (omega (arith, t)))
        | inr e ↦ rw e (a, omega (arith, t))
      ]
