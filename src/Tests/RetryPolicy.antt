-- ===== src/Tests/RetryPolicy.antt =====
-- src/aduib_rpc/resilience/retry_policy.py on the default policy.
use aduib_rpc.Prelude.{ℕ, [], if◌then◌else◌, ltb, none, pos, refl, some, suc, true, ◌<◌, ◌≡◌}
use aduib_rpc.Exceptions.{Exn, rpc_instance, dependency_error}
use aduib_rpc.Resilience.CircuitBreaker.{CircuitBreaker, open_, Outcome, returned, raised}
use aduib_rpc.Resilience.RetryPolicy.{
  RetryPolicy, init, execute, World, base_delay, exponential, compute_delay, invoke, should_retry,
  is_retryable_error,
}
use aduib_rpc.Resilience.RetryPolicy.Attempts.{before, Retries, execute_lem}

abbrev policy : RetryPolicy
policy = record {
  max_attempts = pos 3;
  strategy = exponential;
  initial_delay_ms = pos 100;
  max_delay_ms = pos 10000;
  backoff_multiplier = pos 2;
  jitter = pos 100;
  retryable_codes = none;
  respect_circuit_breaker = true;
}

abbrev failure : Exn
unfolding rpc_instance
failure = rpc_instance dependency_error

-- Fails twice, and returns from then on.
abbrev third_time : ℕ → Outcome ℕ
third_time n = if ltb n 2 then raised failure else returned n

abbrev world : World ℕ
world = record { breaker = none; now = 0; outcome = third_time; calls = 0 }

third_returns :
    execute (init policy) (invoke (init policy)) (λ k w. w) world
    ≡ (record world { calls = 3 }, returned 2)
unfolding execute invoke init should_retry is_retryable_error rpc_instance
third_returns = refl

execute_lem_example :
    let x = init policy in
    let inv : World ℕ → World ℕ × Outcome ℕ = invoke x in
    (n : ℕ) × (n < x.max_attempts)
    × (execute x inv (λ k w. w) world ≡ inv (before x inv (λ k w. w) n world))
    × ((j : ℕ) → j < n → Retries x (suc j) (inv (before x inv (λ k w. w) j world)).1)
    × (¬ Retries x (suc n) (inv (before x inv (λ k w. w) n world)).1)
execute_lem_example = execute_lem policy (invoke (init policy)) (λ k w. w) world

abbrev opened : CircuitBreaker
opened = record {
  failure_threshold = 2;
  success_threshold = 2;
  timeout_us = 10000;
  half_open_max_calls = 2;
  excluded_exceptions = [];
  state = open_;
  failure_count = 2;
  success_count = 0;
  opened_at = some 700;
  half_open_in_flight = 0;
}

abbrev guarded : World ℕ
guarded = record world { breaker = some opened; now = 800 }

third_delay :
    (base_delay (init policy) 3 ≡ 400) × (compute_delay (init policy) 3 250000 ≡ 380000000000)
unfolding base_delay compute_delay init
third_delay = (refl, refl)
