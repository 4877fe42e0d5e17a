-- ===== src/RateLimiter.antt =====
-- core/rate_limiter.py: the choice of a rule, and the sliding window of one bucket.
--
-- A bucket is the sorted set of its scores, oldest first. The member of a request is its millisecond
-- and a number of `math.random`, whose sequence Redis starts anew in each run of a script (as its
-- documentation says): requests of one millisecond have the same member, and a set holds it once.
-- The script's EXPIRE drops a set only when its entries have left every window, so it is left out.
-- `window_seconds` is a quotient of floats, and a field here.
pub mod Windows
use bsnexus.Domain.{
  deliverable_status_eq, deliverable_type_eq, proof_aspect_status_eq, proof_aspect_type_eq,
  proof_state_eq, request_status_eq, run_attempt_phase_eq, run_attempt_status_eq,
  work_plan_status_eq, work_step_status_eq,
}
use bsnexus.Prelude.{
  Bool, List, String, [], false, filter, if◌then◌else◌, int_eq, is_prefix, leb, length, ltb, nat_eq,
  option_eq, string_eq, text_length, true, ℕ, ◌&&◌, ◌*◌, ◌+◌, ◌-◌, ◌==◌, ◌∷◌,
}
use bsnexus.Store.{
  decision_has_id, deliverable_has_id, project_has_id, request_has_id, run_attempt_has_id,
  work_step_has_id,
}

pub record RateLimitConfig : Type 0 where
  pub window_seconds : ℕ
  pub max_requests : ℕ

-- the longest prefix of the path so far, with its rule: the loop of `_get_config`
unfoldable best_config :
    String → String → RateLimitConfig → List (String × RateLimitConfig) → String × RateLimitConfig
best_config path best config [] = (best, config)
best_config path best config ((prefix, rule) ∷ rules) =
    if is_prefix prefix path && ltb (text_length best) (text_length prefix)
    then best_config path prefix rule rules
    else best_config path best config rules

-- `ZADD` of the member of this millisecond, which changes nothing when the set has it
unfoldable pub add_score : ℕ → List ℕ → List ℕ
add_score t [] = t ∷ []
add_score t (s ∷ scores) =
    let rest = add_score t scores in
    if s == t then s ∷ scores else if leb s t then s ∷ rest else t ∷ s ∷ scores

-- an entry that `ZREMRANGEBYSCORE` leaves: its score is after the window's start
abbrev pub is_after : ℕ → ℕ → ℕ → Bool
is_after window now t = ltb now (t + window)

-- the oldest entry's time to leave, 0 where it has left
abbrev pub retry_ms : ℕ → ℕ → List ℕ → ℕ
retry_ms window now [] = 0
retry_ms window now (t ∷ scores) = t + window - now

-- the script on the bucket: is the request allowed, when to retry, and the bucket after it
unfoldable pub slide : RateLimitConfig → ℕ → List ℕ → (Bool × ℕ) × List ℕ
unfolding add_score
slide config now scores =
    let window = config.window_seconds * 1000 in
    let kept = filter (is_after window now) scores in
    if ltb (length kept) config.max_requests
    then ((true, 0), add_score now kept)
    else ((false, retry_ms window now kept), kept)

-- the times of the requests that are allowed, of those that arrive at `times`
unfoldable pub allowed_times : RateLimitConfig → List ℕ → List ℕ → List ℕ
unfolding slide
allowed_times config [] scores = []
allowed_times config (now ∷ times) scores =
    let done = slide config now scores in
    let rest = allowed_times config times done.1 in if done.0.0 then now ∷ rest else rest
