-- ===== src/Resilience/RateLimiter/SlidingWindow.antt =====
-- The sliding window of src/aduib_rpc/resilience/rate_limiter.py: what it grants in any second.
use aduib_rpc.Prelude.{
  ℕ, List, [], ap, arith, if◌then◌else◌, ltb, refl, ◌++◌, ◌+◌, ◌-◌, ◌∙◌, ◌∷◌, ◌≡◌, ◌≤◌, All,
}
use aduib_rpc.Resilience.RateLimiter.{
  RateLimiter, drop_old, window_size, cleanup, try_sliding_window, try_acquire, sliding_window,
  try_by,
}

-- The tokens of a list of grants, each a time and a number of tokens.
abbrev pub tokens_of : List (ℕ × ℕ) → ℕ
tokens_of [] = 0
tokens_of ((ts, n) ∷ w) = n + tokens_of w

-- The tokens of the grants of the second that ends at `t`.
abbrev pub tokens_within : ℕ → List (ℕ × ℕ) → ℕ
tokens_within t [] = 0
tokens_within t ((ts, n) ∷ w) = (if ltb t (ts + window_size) then n else 0) + tokens_within t w

-- The count is that of the entries, and within the rate.
pub record IsWindow (l : RateLimiter) : Type 0 where
  pub counted : l.window_count ≡ tokens_of l.window
  pub limited : l.window_count ≤ l.rate

tokens_within-le : (t : ℕ) (w : List (ℕ × ℕ)) → tokens_within t w ≤ tokens_of w
tokens_within-le t [] = omega arith
tokens_within-le t ((ts, n) ∷ w) = ground (arith, tokens_within-le t w)

tokens_of-append : (w v : List (ℕ × ℕ)) → tokens_of (w ++ v) ≡ tokens_of w + tokens_of v
tokens_of-append [] v = omega arith
tokens_of-append ((ts, n) ∷ w) v = omega (arith, tokens_of-append w v)

tokens_within-append :
    (t : ℕ) (w v : List (ℕ × ℕ)) → tokens_within t (w ++ v) ≡ tokens_within t w + tokens_within t v
tokens_within-append t [] v = omega arith
tokens_within-append t ((ts, n) ∷ w) v =
    ap (λ k. (if ltb t (ts + window_size) then n else 0) + k) (tokens_within-append t w v)
    ∙ omega arith

drop_old_counted :
    (now : ℕ) (w : List (ℕ × ℕ)) (count : ℕ)
    → count ≡ tokens_of w
    → ((drop_old now w count).1 ≡ tokens_of (drop_old now w count).0)
      × ((drop_old now w count).1 ≤ count)
unfolding drop_old
drop_old_counted now [] count h = ground arith
drop_old_counted now ((ts, n) ∷ w) count h = ground (arith, drop_old_counted now w (count - n))

tokens_within-drop_old :
    (t now : ℕ) (w : List (ℕ × ℕ)) (count : ℕ)
    → now ≤ t
    → tokens_within t (drop_old now w count).0 ≡ tokens_within t w
unfolding drop_old
tokens_within-drop_old t now [] count h = refl
tokens_within-drop_old t now ((ts, n) ∷ w) count h =
    ground (arith, tokens_within-drop_old t now w (count - n))

cleanup_fields :
    (now : ℕ) (l : RateLimiter)
    → ((cleanup now l).window ≡ (drop_old now l.window l.window_count).0)
      × ((cleanup now l).window_count ≡ (drop_old now l.window l.window_count).1)
      × ((cleanup now l).rate ≡ l.rate)
      × ((cleanup now l).algorithm ≡ l.algorithm)
unfolding cleanup
cleanup_fields now l = ground arith

cleanup-IsWindow : (now : ℕ) (l : RateLimiter) → IsWindow l → IsWindow (cleanup now l)
cleanup-IsWindow now l v =
    ground (arith, cleanup_fields now l, drop_old_counted now l.window l.window_count)

tokens_within-cleanup :
    (t now : ℕ) (l : RateLimiter)
    → now ≤ t
    → tokens_within t (cleanup now l).window ≡ tokens_within t l.window
tokens_within-cleanup t now l h =
    rw ((cleanup_fields now l).0) (tokens_within-drop_old t now l.window l.window_count h)

-- The grants of a list of attempts, each a time and a number of tokens, oldest first.
unfoldable pub grants : List (ℕ × ℕ) → RateLimiter → List (ℕ × ℕ)
grants [] l = []
grants ((now, n) ∷ tries) l =
    let rest = grants tries (try_acquire n now l).limiter in
    if (try_acquire n now l).acquired then (now, n) ∷ rest else rest

try_acquire_of_sliding :
    (n now : ℕ) (l : RateLimiter)
    → l.algorithm ≡ sliding_window
    → try_acquire n now l ≡ try_sliding_window n now l
unfolding try_acquire
try_acquire_of_sliding n now l h = rw (h, try_by)

-- One attempt keeps the window, and what it grants is what the window gains.
try_sliding_window_lem :
    (n now t : ℕ) (l : RateLimiter)
    → IsWindow l
    → now ≤ t
    → let a = try_sliding_window n now l in
      IsWindow a.limiter
      × (a.limiter.rate ≡ l.rate)
      × (a.limiter.algorithm ≡ l.algorithm)
      × (tokens_within t a.limiter.window
          ≡ tokens_within t l.window + (if a.acquired then tokens_within t ((now, n) ∷ []) else 0))
unfolding try_sliding_window
try_sliding_window_lem n now t l v h = ground (
  arith,
  cleanup-IsWindow now l v,
  cleanup_fields now l,
  tokens_within-cleanup t now l h,
  tokens_of-append (cleanup now l).window ((now, n) ∷ []),
  tokens_within-append t (cleanup now l).window ((now, n) ∷ []),
)

-- For a sliding window in a valid state and any attempts up to a time, the tokens granted in the
-- second before that time, with those that the window held at the start, are at most the rate.
pub grants_within_rate :
    (tries : List (ℕ × ℕ)) (t : ℕ) (l : RateLimiter)
    → l.algorithm ≡ sliding_window
    → IsWindow l
    → All (λ a. a.0 ≤ t) tries
    → tokens_within t (grants tries l) + tokens_within t l.window ≤ l.rate
unfolding grants
grants_within_rate [] t l h v ts = omega (arith, tokens_within-le t l.window, v.counted, v.limited)
grants_within_rate ((now, n) ∷ tries) t l h v ts =
    let a = try_sliding_window n now l in
    let (v', rate, kind, gained) = try_sliding_window_lem n now t l v ts.0 in
    let rest = grants_within_rate tries t a.limiter (kind ∙ h) v' ts.1 in
    rw (try_acquire_of_sliding n now l h) (ground (arith, rest, gained, rate))
