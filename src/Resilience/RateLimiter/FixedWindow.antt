-- ===== src/Resilience/RateLimiter/FixedWindow.antt =====
-- The fixed window of src/aduib_rpc/resilience/rate_limiter.py.
use aduib_rpc.Prelude.{
  ℕ, All, List, [], arith, if◌then◌else◌, ◌%◌, ◌+◌, ◌-◌, ◌<◌, ◌==◌, ◌∷◌, ◌≡◌, ◌≤◌, ◌∙◌,
}
use aduib_rpc.Resilience.RateLimiter.{
  RateLimiter, rotate, window_size, fixed_window, try_acquire, try_fixed_window, try_by,
}
use aduib_rpc.Resilience.RateLimiter.SlidingWindow.{grants, tokens_of}

-- At any time from the start of the current window on, the rotation leads to the window that holds
-- that time: a whole number of windows later, with the count at zero if that is another window and
-- kept if it is the same.
pub rotate_lem :
    (now : ℕ) (l : RateLimiter)
    → l.fixed_start ≤ now
    → let l' = rotate now l in
      (l'.fixed_start ≤ now)
      × (now < l'.fixed_start + window_size)
      × ((l'.fixed_start - l.fixed_start) % window_size ≡ 0)
      × (l'.fixed_count ≡ (if l'.fixed_start == l.fixed_start then l.fixed_count else 0))
unfolding rotate
rotate_lem now l h = ground arith

try_acquire_of_fixed :
    (n now : ℕ) (l : RateLimiter)
    → l.algorithm ≡ fixed_window
    → try_acquire n now l ≡ try_fixed_window n now l
unfolding try_acquire
try_acquire_of_fixed n now l h = rw (h, try_by)

try_fixed_window_lem :
    (n now : ℕ) (l : RateLimiter)
    → l.fixed_count ≤ l.rate
    → now < l.fixed_start + window_size
    → let a = try_fixed_window n now l in
      (a.limiter.fixed_count ≤ l.rate)
      × (a.limiter.fixed_start ≡ l.fixed_start)
      × (a.limiter.rate ≡ l.rate)
      × (a.limiter.algorithm ≡ l.algorithm)
      × (a.limiter.fixed_count ≡ l.fixed_count + (if a.acquired then n else 0))
unfolding try_fixed_window rotate
try_fixed_window_lem n now l k h = ground arith

-- In one window the tokens granted, with those counted before, stay within the rate.
pub grants_in_window :
    (tries : List (ℕ × ℕ)) (l : RateLimiter)
    → l.algorithm ≡ fixed_window
    → l.fixed_count ≤ l.rate
    → All (λ a. a.0 < l.fixed_start + window_size) tries
    → tokens_of (grants tries l) + l.fixed_count ≤ l.rate
unfolding grants
grants_in_window [] l h k ts = omega arith
grants_in_window ((now, n) ∷ tries) l h k ts =
    let a = try_fixed_window n now l in
    let (k', start, rate, kind, gained) = try_fixed_window_lem n now l k ts.0 in
    let ts' : All (λ b. b.0 < a.limiter.fixed_start + window_size) tries = rw start ts.1 in
    let rest = grants_in_window tries a.limiter (kind ∙ h) (rw rate k') ts' in
    rw (try_acquire_of_fixed n now l h) (ground (arith, rest, gained, rate))
