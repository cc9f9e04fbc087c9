-- ===== src/Resilience/RateLimiter/TokenBucket.antt =====
-- The token bucket of src/aduib_rpc/resilience/rate_limiter.py: how much it grants, and what its
-- waiting times promise.
use mathlib.Core.Path.{ap₂}
use aduib_rpc.Prelude.{
  ℕ, ap, arith, if◌then◌else◌, ◌*◌, ◌+◌, ◌-◌, ◌∙◌, ◌≡◌, ◌≤◌, All, List, [], false, some, true, ◌<◌,
  ◌∷◌,
}
use aduib_rpc.Resilience.RateLimiter.{
  RateLimiter, window_size, Attempt, try_token_bucket, refill, try_acquire, token_bucket, ceil_div,
  try_by,
}

-- The level never passes the burst.
abbrev pub IsLevel : RateLimiter → Type 0
IsLevel l = l.bucket_tokens ≤ l.burst * window_size

try_token_bucket-IsLevel :
    (tokens now : ℕ) (l : RateLimiter) → IsLevel l → IsLevel (try_token_bucket tokens now l).limiter
unfolding try_token_bucket refill
try_token_bucket-IsLevel tokens now l h = ground arith

pub try_token_bucket_fixed :
    (tokens now : ℕ) (l : RateLimiter)
    → let l' = (try_token_bucket tokens now l).limiter in
      (l'.algorithm ≡ l.algorithm) × (l'.rate ≡ l.rate) × (l'.burst ≡ l.burst)
unfolding try_token_bucket refill
try_token_bucket_fixed tokens now l = ground arith

-- The tokens that an attempt grants.
abbrev pub granted_by : ℕ → Attempt → ℕ
granted_by tokens a = if a.acquired then tokens else 0

gap_split :
    (last now end_ r : ℕ)
    → last ≤ now
    → now ≤ end_
    → (end_ - last) * r ≡ (end_ - now) * r + (now - last) * r
gap_split last now end_ r h k =
    ap (λ n. n * r) (let e : end_ - last ≡ (end_ - now) + (now - last) = omega arith in e)
    ∙ omega arith

-- One attempt: what it grants comes out of the level and of the time that has passed.
try_token_bucket-budget :
    (tokens now end_ : ℕ) (l : RateLimiter)
    → now ≤ end_
    → l.bucket_last ≤ end_
    → let a = try_token_bucket tokens now l in
      (a.limiter.bucket_last ≤ end_)
      × (granted_by tokens a * window_size
            + a.limiter.bucket_tokens
            + (end_ - a.limiter.bucket_last) * l.rate
          ≤ l.bucket_tokens + (end_ - l.bucket_last) * l.rate)
unfolding try_token_bucket refill
try_token_bucket-budget tokens now end_ l h k =
    ground (arith, gap_split l.bucket_last now end_ l.rate)

-- The tokens granted to a list of attempts, each a time and a number of tokens.
unfoldable pub grant_all : List (ℕ × ℕ) → RateLimiter → ℕ
grant_all [] l = 0
grant_all ((now, tokens) ∷ tries) l =
    granted_by tokens (try_acquire tokens now l)
    + grant_all tries (try_acquire tokens now l).limiter

pub try_acquire_of_bucket :
    (tokens now : ℕ) (l : RateLimiter)
    → l.algorithm ≡ token_bucket
    → try_acquire tokens now l ≡ try_token_bucket tokens now l
unfolding try_acquire
try_acquire_of_bucket tokens now l h = rw (h, try_by)

grant_all_budget :
    (tries : List (ℕ × ℕ)) (end_ : ℕ) (l : RateLimiter)
    → l.algorithm ≡ token_bucket
    → All (λ a. a.0 ≤ end_) tries
    → l.bucket_last ≤ end_
    → grant_all tries l * window_size ≤ l.bucket_tokens + (end_ - l.bucket_last) * l.rate
unfolding grant_all
grant_all_budget [] end_ l h ts k = omega arith
grant_all_budget ((now, tokens) ∷ tries) end_ l h ts k =
    let a = try_token_bucket tokens now l in
    let (kind, rate, _) = try_token_bucket_fixed tokens now l in
    let (last, budget) = try_token_bucket-budget tokens now end_ l ts.0 k in
    let rest = grant_all_budget tries end_ a.limiter (kind ∙ h) ts.1 last in
    rw (try_acquire_of_bucket tokens now l h)
      (omega (arith, budget, rest, ap (λ r. (end_ - a.limiter.bucket_last) * r) rate))

-- Over any attempts up to a time, in any order, a token bucket whose level is within its burst
-- grants at most the burst and the rate times the time since its last refill.
pub grant_all_bounded :
    (tries : List (ℕ × ℕ)) (end_ : ℕ) (l : RateLimiter)
    → l.algorithm ≡ token_bucket
    → IsLevel l
    → All (λ a. a.0 ≤ end_) tries
    → l.bucket_last ≤ end_
    → grant_all tries l * window_size ≤ l.burst * window_size + (end_ - l.bucket_last) * l.rate
grant_all_bounded tries end_ l h v ts k = omega (arith, grant_all_budget tries end_ l h ts k)

le-ceil_div : (a b : ℕ) → 0 < b → a ≤ ceil_div a b * b
unfolding ceil_div
le-ceil_div a b h = grind arith

-- What a refused attempt says: the wait covers the tokens that are missing.
refused_wait :
    (tokens now w : ℕ) (l : RateLimiter)
    → (try_token_bucket tokens now l).acquired ≡ false
    → (try_token_bucket tokens now l).wait_ms ≡ some w
    → (0 < l.rate)
      × (tokens ≤ l.burst)
      × (0 < l.burst)
      × (tokens * window_size ≤ (refill now l).bucket_tokens + w * 1000 * l.rate)
      × ((try_token_bucket tokens now l).limiter ≡ refill now l)
unfolding try_token_bucket refill
refused_wait tokens now w l refused wait = ground (
  arith,
  le-ceil_div ((tokens * window_size - (refill now l).bucket_tokens) * 1000) (l.rate * window_size),
)

refill_settles :
    (now : ℕ) (l : RateLimiter)
    → 0 < l.rate
    → l.bucket_last ≤ now
    → ((refill now l).bucket_last ≡ now)
      × ((refill now l).rate ≡ l.rate)
      × ((refill now l).burst ≡ l.burst)
unfolding refill
refill_settles now l r h = ground arith

refill_reaches :
    (level now : ℕ) (l : RateLimiter)
    → 0 < l.rate
    → l.bucket_last ≤ now
    → level ≤ l.burst * window_size
    → level ≤ l.bucket_tokens + (now - l.bucket_last) * l.rate
    → level ≤ (refill now l).bucket_tokens
unfolding refill
refill_reaches level now l r h b k = ground arith

acquired_of_level :
    (tokens now : ℕ) (l : RateLimiter)
    → 0 < l.burst
    → tokens ≤ l.burst
    → tokens * window_size ≤ (refill now l).bucket_tokens
    → (try_token_bucket tokens now l).acquired ≡ true
unfolding try_token_bucket
acquired_of_level tokens now l b t h = ground arith

le-mul_right : (a b r : ℕ) → a ≤ b → a * r ≤ b * r
le-mul_right a b r h = grind arith

-- A refused attempt that is given a waiting time succeeds when it is made again after that time,
-- if nothing else was taken from the bucket meanwhile and its clock had not run ahead.
pub wait_suffices :
    (tokens now later w : ℕ) (l : RateLimiter)
    → l.bucket_last ≤ now
    → (try_token_bucket tokens now l).acquired ≡ false
    → (try_token_bucket tokens now l).wait_ms ≡ some w
    → now + w * 1000 ≤ later
    → (try_token_bucket tokens later (try_token_bucket tokens now l).limiter).acquired ≡ true
wait_suffices tokens now later w l last refused wait h =
    let (rate, fits, burst, missing, same) = refused_wait tokens now w l refused wait in
    let l' = refill now l in
    let (at, rate', burst') = refill_settles now l rate last in
    let paid : w * 1000 * l.rate ≤ (later - now) * l.rate =
      le-mul_right (w * 1000) (later - now) l.rate (omega arith) in
    let gap : (later - l'.bucket_last) * l'.rate ≡ (later - now) * l.rate =
      ap₂ (λ a r. (later - a) * r) at rate' in
    rw same (
      acquired_of_level tokens later l' (omega arith) (omega arith) (
        refill_reaches (tokens * window_size) later l' (omega arith) (omega arith) (omega arith)
          (omega arith)))
