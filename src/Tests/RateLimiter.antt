-- ===== src/Tests/RateLimiter.antt =====
-- src/aduib_rpc/resilience/rate_limiter.py on concrete limiters.
use aduib_rpc.Prelude.{
  [], arith, false, inl, inr, none, pos, refl, some, true, ◌*◌, ◌+◌, ◌-◌, ◌∷◌, ◌≡◌, ◌≢◌, ◌≤◌,
}
use aduib_rpc.Resilience.RateLimiter.{
  RateLimiter, init, try_token_bucket, acquire, sliding_window, RateLimiterConfig, fixed_window,
  token_bucket, try_acquire, window_size, refill, try_sliding_window, cleanup,
}
use aduib_rpc.Resilience.RateLimiter.SlidingWindow.{
  IsWindow, grants, tokens_within, grants_within_rate,
}
use aduib_rpc.Resilience.RateLimiter.Waiting.{
  Waited, Round, acquire_or_wait, still_waiting, acquired_tokens, acquire_or_wait_ends,
  acquire_or_wait_second,
}
use aduib_rpc.Resilience.RateLimiter.TokenBucket.{grant_all, grant_all_bounded}

-- Five tokens a second, bursts of ten.
abbrev config : RateLimiterConfig
config = record {
  algorithm = token_bucket;
  rate = pos 5;
  burst = pos 10;
  wait_timeout_ms = pos 1000;
}

abbrev bucket : RateLimiter
unfolding init
bucket = init config 0

abbrev drained : RateLimiter
drained = record {
  config = config;
  algorithm = token_bucket;
  rate = 5;
  burst = 10;
  wait_timeout_ms = 1000;
  event = true;
  bucket_tokens = 1000000;
  bucket_last = 1000;
  window = [];
  window_count = 0;
  fixed_start = 0;
  fixed_count = 0;
}

abbrev sliding : RateLimiter
sliding = record drained { algorithm = sliding_window }

abbrev fixed : RateLimiter
fixed = record drained { algorithm = fixed_window }

refused_then_told : acquire (pos 2) 1000 drained ≡ (drained, some false)
unfolding acquire try_acquire try_token_bucket refill
refused_then_told = refl

zero_tokens : acquire (pos 0) 1000 drained ≡ (drained, none)
unfolding acquire
zero_tokens = refl

grant_all_bounded_example :
    grant_all ((0, 10) ∷ (200000, 1) ∷ (200001, 1) ∷ []) bucket * window_size
    ≤ 10 * window_size + (300000 - 0) * 5
unfolding init
grant_all_bounded_example =
    grant_all_bounded ((0, 10) ∷ (200000, 1) ∷ (200001, 1) ∷ []) 300000 bucket refl (omega arith)
      (omega arith) (omega arith)

granted : grant_all ((0, 10) ∷ (200000, 1) ∷ (200001, 1) ∷ []) bucket ≡ 11
unfolding grant_all init try_acquire try_token_bucket refill
granted = refl

sliding-IsWindow : IsWindow sliding
sliding-IsWindow = record { counted = refl; limited = omega arith }

grants_within_rate_example :
    tokens_within 1500000 (grants ((100, 3) ∷ (200, 3) ∷ (1400000, 5) ∷ []) sliding)
      + tokens_within 1500000 []
    ≤ 5
grants_within_rate_example =
    grants_within_rate ((100, 3) ∷ (200, 3) ∷ (1400000, 5) ∷ []) 1500000 sliding refl
      sliding-IsWindow (omega arith)

second_refused :
    grants ((100, 3) ∷ (200, 3) ∷ (1400000, 5) ∷ []) sliding ≡ (100, 3) ∷ (1400000, 5) ∷ []
unfolding grants try_acquire try_sliding_window cleanup
second_refused = refl

abbrev first_round : Round
first_round = record { tried_at = 1000; checked_at = 1010; meanwhile = λ l. l }

abbrev second_round : Round
second_round = record { tried_at = 201000; checked_at = 1002000; meanwhile = λ l. l }

acquire_or_wait_ends_example :
    (l' : RateLimiter) × (w : Waited) × (acquire_or_wait
        (pos 20)
        1000
        (first_round ∷ second_round ∷ [])
        drained
      ≡ some (l', w))
    × (w ≢ still_waiting)
acquire_or_wait_ends_example =
    acquire_or_wait_ends 19 1000 (first_round ∷ second_round ∷ []) drained (inr (inl (omega arith)))

acquire_or_wait_second_example :
    (l' : RateLimiter) × (acquire_or_wait (pos 2) 1000 (first_round ∷ second_round ∷ []) drained
      ≡ some (l', acquired_tokens))
unfolding try_token_bucket refill
acquire_or_wait_second_example =
    acquire_or_wait_second 1 1000 200 first_round second_round [] drained refl (omega arith) refl
      refl (omega arith) (omega arith) (omega arith) (λ l'. refl)
