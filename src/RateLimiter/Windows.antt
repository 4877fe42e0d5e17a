-- ===== src/RateLimiter/Windows.antt =====
-- core/rate_limiter.py: the limit holds in every window.
use bsnexus.Prelude.{
  All, Bool, Bool-cases, List, [], arith, count_if, count_if-le, false, filter, inl, inr, leb,
  length, ltb, refl, true, ℕ, ◌&&◌, ◌*◌, ◌+◌, ◌<◌, ◌∷◌, ◌≡◌, ◌≤◌,
}
use bsnexus.RateLimiter.{RateLimitConfig, add_score, allowed_times, is_after, retry_ms, slide}

-- each time is a later millisecond than the one before
abbrev pub Ascending : List ℕ → Type 0
Ascending [] = Unit
Ascending (t ∷ times) = All (λ u. t < u) times × Ascending times

-- every score is older than `f`
abbrev AreOlder : ℕ → List ℕ → Type 0
AreOlder f scores = All (λ s. s < f) scores

-- no time is before `f`
abbrev AreFrom : ℕ → List ℕ → Type 0
AreFrom f times = All (λ u. f ≤ u) times

after-AreFrom : (t : ℕ) (times : List ℕ) → All (λ u. t < u) times → AreFrom (t + 1) times
after-AreFrom t [] h = tt
after-AreFrom t (u ∷ times) h = (omega (arith, h.0), after-AreFrom t times h.1)

weak-AreFrom : (t : ℕ) (times : List ℕ) → All (λ u. t < u) times → AreFrom t times
weak-AreFrom t [] h = tt
weak-AreFrom t (u ∷ times) h = (omega (arith, h.0), weak-AreFrom t times h.1)

zero-AreFrom : (times : List ℕ) → AreFrom 0 times
zero-AreFrom [] = tt
zero-AreFrom (u ∷ times) = (omega arith, zero-AreFrom times)

add_score-AreOlder :
    (t f : ℕ) (scores : List ℕ) → f ≤ t → AreOlder f scores → AreOlder (t + 1) (add_score t scores)
unfolding add_score
add_score-AreOlder t f [] g h = (omega arith, tt)
add_score-AreOlder t f (s ∷ scores) g h = ground (arith, add_score-AreOlder t f scores g h.1, h.0)

filter-AreOlder :
    (p : ℕ → Bool) (f : ℕ) (scores : List ℕ) → AreOlder f scores → AreOlder f (filter p scores)
filter-AreOlder p f [] h = tt
filter-AreOlder p f (s ∷ scores) h = ground (arith, filter-AreOlder p f scores h.1, h.0)

older_weaker : (f t : ℕ) (scores : List ℕ) → f ≤ t → AreOlder f scores → AreOlder t scores
older_weaker f t [] g h = tt
older_weaker f t (s ∷ scores) g h = (omega (arith, h.0, g), older_weaker f t scores g h.1)

-- `t` is one of the last milliseconds of the window up to `x`
abbrev pub in_window : ℕ → ℕ → ℕ → Bool
in_window window x t = leb t x && ltb x (t + window)

module _ (window : ℕ) where
  kept_count :
      (now x : ℕ) (scores : List ℕ)
      → now ≤ x
      → count_if (in_window window x) (filter (is_after window now) scores)
        ≡ count_if (in_window window x) scores
  kept_count now x [] h = refl
  kept_count now x (t ∷ scores) h = ground (arith, kept_count now x scores h)

  kept_le :
      (now x : ℕ) (scores : List ℕ)
      → count_if (in_window window x) (filter (is_after window now) scores)
        ≤ count_if (in_window window x) scores
  kept_le now x [] = omega arith
  kept_le now x (t ∷ scores) = ground (arith, kept_le now x scores)

  count-add_score :
      (x t : ℕ) (scores : List ℕ)
      → AreOlder t scores
      → count_if (in_window window x) (add_score t scores)
        ≡ count_if (in_window window x) (t ∷ scores)
  unfolding add_score
  count-add_score x t [] h = refl
  count-add_score x t (s ∷ scores) h = ground (arith, count-add_score x t scores h.1, h.0)

module _ (config : RateLimitConfig) where
  abbrev window : ℕ
  window = config.window_seconds * 1000

  -- how many of the times lie in the window up to `x`
  abbrev pub load : ℕ → List ℕ → ℕ
  load x times = count_if (in_window window x) times

  abbrev Within : List ℕ → Type 0
  Within scores = (x : ℕ) → load x scores ≤ config.max_requests

  later_none :
      (x now : ℕ) (times scores : List ℕ)
      → x < now
      → All (λ u. now ≤ u) times
      → load x (allowed_times config times scores) ≡ 0
  unfolding allowed_times
  later_none x now [] scores h g = refl
  later_none x now (t ∷ times) scores h g =
      ground (arith, later_none x now times (slide config t scores).1 h g.1, g.0)

  abbrev kept : ℕ → List ℕ → List ℕ
  kept now scores = filter (is_after window now) scores

  abbrev has_room : ℕ → List ℕ → Bool
  has_room now scores = ltb (length (kept now scores)) config.max_requests

  slide_allows :
      (now : ℕ) (scores : List ℕ)
      → has_room now scores ≡ true
      → slide config now scores ≡ ((true, 0), add_score now (kept now scores))
  unfolding slide
  slide_allows now scores e = rw e refl

  slide_refuses :
      (now : ℕ) (scores : List ℕ)
      → has_room now scores ≡ false
      → slide config now scores ≡ ((false, retry_ms window now (kept now scores)), kept now scores)
  unfolding slide
  slide_refuses now scores e = rw e refl

  added-Within :
      (now : ℕ) (scores : List ℕ)
      → AreOlder now scores
      → has_room now scores ≡ true
      → Within (add_score now (kept now scores))
  added-Within now scores old room x =
      let few = count_if-le (in_window window x) (now ∷ kept now scores) in
      rw
        (count-add_score window x now (kept now scores)
          (filter-AreOlder (is_after window now) now scores old))
        (ground (arith, few, room))

  kept-Within : (now : ℕ) (scores : List ℕ) → Within scores → Within (kept now scores)
  kept-Within now scores h x = omega (arith, kept_le window now x scores, h x)

  loads-Within :
      (f : ℕ) (times scores : List ℕ)
      → Ascending times
      → AreFrom f times
      → AreOlder f scores
      → Within scores
      → (x : ℕ) → load x scores + load x (allowed_times config times scores) ≤ config.max_requests
  unfolding allowed_times
  loads-Within f [] scores up from old h x = omega (arith, h x)
  loads-Within f (now ∷ times) scores up from old h x = elim (Bool-cases (ltb x now)) [
    | inl early ↦
        let none_later =
          later_none x now (now ∷ times) scores (ground (arith, early))
            (omega arith, weak-AreFrom now times up.0) in
        rw none_later (omega (arith, h x))
    | inr late ↦
        let after : now ≤ x = ground (arith, late) in
        let older = older_weaker f now scores from.0 old in
        let kept_older = filter-AreOlder (is_after window now) now scores older in
        let next = after-AreFrom now times up.0 in
        elim (Bool-cases (has_room now scores)) [
          | inl room ↦
              let ih =
                loads-Within (now + 1) times (add_score now (kept now scores)) (up.1) next
                  (add_score-AreOlder now now (kept now scores) (omega arith) kept_older)
                  (added-Within now scores older room) x in
              rw (slide_allows now scores room) (
                ground (
                  arith,
                  ih,
                  count-add_score window x now (kept now scores) kept_older,
                  kept_count window now x scores after,
                ))
          | inr room ↦
              let ih =
                loads-Within (now + 1) times (kept now scores) (up.1) next
                  (older_weaker now (now + 1) (kept now scores) (omega arith) kept_older)
                  (kept-Within now scores h) x in
              rw (slide_refuses now scores room)
                (ground (arith, ih, kept_count window now x scores after))
        ]
  ]

  -- The limit holds in every window, for requests in different milliseconds: of the requests that arrive
  -- at one bucket, empty at first, each in a later millisecond than the one before, at most
  -- `max_requests` are allowed in any stretch of `window_seconds`.
  pub windows_are_bounded :
      (times : List ℕ) (x : ℕ)
      → Ascending times
      → load x (allowed_times config times []) ≤ config.max_requests
  windows_are_bounded times x up =
      omega (arith, loads-Within 0 times [] up (zero-AreFrom times) tt (λ y. omega arith) x)
