-- ===== src/Tests/RateLimits.antt =====
-- The theorem on the rate limiter, applied to three requests within a second.
use bsnexus.Prelude.{List, [], arith, refl, ℕ, ◌∷◌, ◌≡◌, ◌≤◌}
use bsnexus.RateLimiter.{RateLimitConfig, allowed_times}
use bsnexus.RateLimiter.Windows.{load, windows_are_bounded}

abbrev two_a_second : RateLimitConfig
two_a_second = record { window_seconds = 1; max_requests = 2 }

abbrev three_times : List ℕ
three_times = 5000 ∷ 5100 ∷ 5200 ∷ []

-- the third one is refused
third_is_refused : allowed_times two_a_second three_times [] ≡ 5000 ∷ 5100 ∷ []
unfolding allowed_times
third_is_refused = refl

windows_are_bounded_example : load two_a_second 5200 (allowed_times two_a_second three_times []) ≤ 2
windows_are_bounded_example =
    windows_are_bounded two_a_second three_times 5200
      ((omega arith, (omega arith, tt)), ((omega arith, tt), (tt, tt)))

-- three requests of one millisecond have one member, and all are allowed
same_millisecond : allowed_times two_a_second (5000 ∷ 5000 ∷ 5000 ∷ []) [] ≡ 5000 ∷ 5000 ∷ 5000 ∷ []
unfolding allowed_times
same_millisecond = refl
