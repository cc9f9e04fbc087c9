-- ===== src/Resilience/RateLimiter.antt =====
-- src/aduib_rpc/resilience/rate_limiter.py: the state of a RateLimiter and its methods. Times are
-- whole microseconds of the monotonic clock, rates whole tokens a second, and the level of the
-- bucket is counted in millionths of a token, so that no product or quotient of the code is
-- rounded but those that it rounds itself.
pub mod TokenBucket
pub mod SlidingWindow
pub mod FixedWindow
pub mod Waiting
use aduib_rpc.Prelude.{
  ℕ, Bool, List, Option, [], at_least, false, if◌then◌else◌, leb, ltb, min, negsuc, none, not, pos,
  some, suc, true, zero, ℤ, ◌*◌, ◌++◌, ◌+◌, ◌-◌, ◌/◌, ◌||◌, ◌∷◌,
}

pub data RateLimitAlgorithm : Type 0 where
  token_bucket sliding_window fixed_window : RateLimitAlgorithm

pub record RateLimiterConfig : Type 0 where
  pub algorithm : RateLimitAlgorithm
  pub rate : ℤ
  pub burst : ℤ
  pub wait_timeout_ms : ℤ

-- `_WINDOW_SIZE_S`, one second.
abbrev pub window_size : ℕ
window_size = 1000000

-- `event` says whether the waiters' event is set; an entry of the window is (time, tokens).
pub record RateLimiter : Type 0 where
  pub config : RateLimiterConfig
  pub algorithm : RateLimitAlgorithm
  pub rate : ℕ
  pub burst : ℕ
  pub wait_timeout_ms : ℕ
  pub event : Bool
  pub bucket_tokens : ℕ
  pub bucket_last : ℕ
  pub window : List (ℕ × ℕ)
  pub window_count : ℕ
  pub fixed_start : ℕ
  pub fixed_count : ℕ

-- `__init__`, at the clock reading `now`.
unfoldable pub init : RateLimiterConfig → ℕ → RateLimiter
init config now = record {
  config = config;
  algorithm = config.algorithm;
  rate = at_least 0 config.rate;
  burst = at_least 0 config.burst;
  wait_timeout_ms = at_least 0 config.wait_timeout_ms;
  event = true;
  bucket_tokens = at_least 0 config.burst * window_size;
  bucket_last = now;
  window = [];
  window_count = 0;
  fixed_start = now;
  fixed_count = 0;
}

-- `_notify_waiters` and `_prepare_wait`.
notify_waiters : RateLimiter → RateLimiter
notify_waiters l = if not l.event then record l { event = true } else l

prepare_wait : RateLimiter → RateLimiter
prepare_wait l = if l.event then record l { event = false } else l

-- `reset`.
unfoldable pub reset : ℕ → RateLimiter → RateLimiter
unfolding notify_waiters
reset now l = notify_waiters (record l {
  bucket_tokens = l.burst * window_size;
  bucket_last = now;
  window = [];
  window_count = 0;
  fixed_start = now;
  fixed_count = 0;
})

-- `update_config`.
unfoldable pub update_config : RateLimiterConfig → ℕ → RateLimiter → RateLimiter
unfolding notify_waiters
update_config config now l = notify_waiters (record {
  config = config;
  algorithm = config.algorithm;
  rate = at_least 0 config.rate;
  burst = at_least 0 config.burst;
  wait_timeout_ms = at_least 0 config.wait_timeout_ms;
  event = l.event;
  bucket_tokens = at_least 0 config.burst * window_size;
  bucket_last = now;
  window = [];
  window_count = 0;
  fixed_start = now;
  fixed_count = 0;
})

-- `math.ceil(a / b)`.
unfoldable pub ceil_div : ℕ → ℕ → ℕ
ceil_div a b = (a + b - 1) / b

-- `_refill_token_bucket`: where the clock has not moved on, nothing changes.
refilled : ℕ → RateLimiter → RateLimiter
refilled now l = record l {
  bucket_tokens = min (l.burst * window_size) (l.bucket_tokens + (now - l.bucket_last) * l.rate);
  bucket_last = now;
}

unfoldable pub refill : ℕ → RateLimiter → RateLimiter
unfolding refilled notify_waiters
refill now l =
    if leb l.rate 0
    then record l { bucket_last = now }
    else if leb now l.bucket_last
    then l
    else if ltb l.bucket_tokens (refilled now l).bucket_tokens
    then notify_waiters (refilled now l)
    else refilled now l

-- `_token_bucket_wait_ms`.
token_bucket_wait_ms : ℕ → RateLimiter → Option ℕ
unfolding ceil_div
token_bucket_wait_ms tokens l =
    if leb l.rate 0
    then none
    else if leb (tokens * window_size) l.bucket_tokens
    then some 0
    else some (ceil_div ((tokens * window_size - l.bucket_tokens) * 1000) (l.rate * window_size))

-- What an attempt gives: whether the tokens were acquired, and how long to wait if not (`none`
-- where waiting does not help).
pub record Attempt : Type 0 where
  pub limiter : RateLimiter
  pub acquired : Bool
  pub wait_ms : Option ℕ

-- The test of `_try_acquire_token_bucket` on the refilled bucket.
take_tokens : ℕ → RateLimiter → Attempt
unfolding token_bucket_wait_ms
take_tokens tokens l =
    if leb (tokens * window_size) l.bucket_tokens
    then record {
      limiter = record l { bucket_tokens = l.bucket_tokens - tokens * window_size };
      acquired = true;
      wait_ms = some 0;
    }
    else record { limiter = l; acquired = false; wait_ms = token_bucket_wait_ms tokens l }

-- `_try_acquire_token_bucket`.
unfoldable pub try_token_bucket : ℕ → ℕ → RateLimiter → Attempt
unfolding take_tokens
try_token_bucket tokens now l =
    if leb l.burst 0 || ltb l.burst tokens
    then record { limiter = l; acquired = false; wait_ms = none }
    else take_tokens tokens (refill now l)

-- The loop of `_cleanup_sliding_window`: entries a second old or older leave from the left.
drop_old : ℕ → List (ℕ × ℕ) → ℕ → List (ℕ × ℕ) × ℕ
drop_old now [] count = ([], count)
drop_old now ((ts, n) ∷ w) count =
    let rest = drop_old now w (count - n) in
    if leb (ts + window_size) now then rest else ((ts, n) ∷ w, count)

unfoldable pub cleanup : ℕ → RateLimiter → RateLimiter
unfolding notify_waiters drop_old
cleanup now l =
    let (w, count) = drop_old now l.window l.window_count in
    let l' = record l { window = w; window_count = count } in
    if ltb count l.window_count then notify_waiters l' else l'

-- The loop of `_sliding_wait_ms`, and its result where no prefix suffices.
wait_for_excess : ℕ → ℕ → ℕ → List (ℕ × ℕ) → ℕ
wait_for_excess now excess running [] = 1000
wait_for_excess now excess running ((ts, n) ∷ w) =
    let rest = wait_for_excess now excess (running + n) w in
    if leb excess (running + n) then ceil_div (ts + window_size - now) 1000 else rest

unfoldable pub sliding_wait_ms : ℕ → ℕ → RateLimiter → ℕ
unfolding wait_for_excess
sliding_wait_ms now tokens l =
    if leb (l.window_count + tokens) l.rate
    then elim l.window [ [] ↦ 1000 | _ ∷ _ ↦ 0 ]
    else wait_for_excess now (l.window_count + tokens - l.rate) 0 l.window

-- The test of `_try_acquire_sliding_window` on the cleaned window.
enter_window : ℕ → ℕ → RateLimiter → Attempt
enter_window tokens now l =
    if leb (l.window_count + tokens) l.rate
    then record {
      limiter = record l {
        window = l.window ++ (now, tokens) ∷ [];
        window_count = l.window_count + tokens;
      };
      acquired = true;
      wait_ms = some 0;
    }
    else record { limiter = l; acquired = false; wait_ms = some (sliding_wait_ms now tokens l) }

-- `_try_acquire_sliding_window`.
unfoldable pub try_sliding_window : ℕ → ℕ → RateLimiter → Attempt
unfolding enter_window
try_sliding_window tokens now l =
    if leb l.rate 0 || ltb l.rate tokens
    then record { limiter = l; acquired = false; wait_ms = none }
    else enter_window tokens now (cleanup now l)

-- `_rotate_fixed_window`.
unfoldable pub rotate : ℕ → RateLimiter → RateLimiter
unfolding notify_waiters
rotate now l =
    if ltb (now - l.fixed_start) window_size
    then l
    else let l' = record l {
      fixed_start = l.fixed_start + (now - l.fixed_start) / window_size * window_size;
    } in
      if ltb 0 l.fixed_count then notify_waiters (record l' { fixed_count = 0 }) else l'

-- `_fixed_wait_ms`.
fixed_wait_ms : ℕ → RateLimiter → ℕ
unfolding ceil_div
fixed_wait_ms now l = ceil_div (l.fixed_start + window_size - now) 1000

-- The test of `_try_acquire_fixed_window` in the current window.
count_in_window : ℕ → ℕ → RateLimiter → Attempt
unfolding fixed_wait_ms
count_in_window tokens now l =
    if leb (l.fixed_count + tokens) l.rate
    then record {
      limiter = record l { fixed_count = l.fixed_count + tokens };
      acquired = true;
      wait_ms = some 0;
    }
    else record { limiter = l; acquired = false; wait_ms = some (fixed_wait_ms now l) }

-- `_try_acquire_fixed_window`.
unfoldable pub try_fixed_window : ℕ → ℕ → RateLimiter → Attempt
unfolding count_in_window
try_fixed_window tokens now l =
    if leb l.rate 0 || ltb l.rate tokens
    then record { limiter = l; acquired = false; wait_ms = none }
    else count_in_window tokens now (rotate now l)

-- `_try_acquire`, by the algorithm of the limiter.
try_by : RateLimitAlgorithm → ℕ → ℕ → RateLimiter → Attempt
try_by token_bucket tokens now l = try_token_bucket tokens now l
try_by sliding_window tokens now l = try_sliding_window tokens now l
try_by fixed_window tokens now l = try_fixed_window tokens now l

unfoldable pub try_acquire : ℕ → ℕ → RateLimiter → Attempt
unfolding try_by
try_acquire tokens now l = try_by l.algorithm tokens now l

-- `_available_tokens_locked`, with the state that it leaves.
available_by : RateLimitAlgorithm → ℕ → RateLimiter → RateLimiter × ℕ
available_by token_bucket now l = (refill now l, (refill now l).bucket_tokens / window_size)
available_by sliding_window now l = (cleanup now l, l.rate - (cleanup now l).window_count)
available_by fixed_window now l = (rotate now l, l.rate - (rotate now l).fixed_count)

-- `get_available_tokens`.
unfoldable pub get_available_tokens : ℕ → RateLimiter → RateLimiter × ℕ
unfolding available_by
get_available_tokens now l = available_by l.algorithm now l

-- `_normalize_tokens`: `none` is the ValueError.
unfoldable pub normalize_tokens : ℤ → Option ℕ
normalize_tokens (pos zero) = none
normalize_tokens (pos (suc n)) = some (suc n)
normalize_tokens (negsuc n) = none

-- `acquire`: `none` is the ValueError, which leaves the limiter as it was.
unfoldable pub acquire : ℤ → ℕ → RateLimiter → RateLimiter × Option Bool
unfolding normalize_tokens
acquire tokens now l = elim (normalize_tokens tokens) [
  | none ↦ (l, none)
  | some n ↦ ((try_acquire n now l).limiter, some (try_acquire n now l).acquired)
]
