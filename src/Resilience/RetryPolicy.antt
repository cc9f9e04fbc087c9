-- ===== src/Resilience/RetryPolicy.antt =====
-- src/aduib_rpc/resilience/retry_policy.py: the policy, the delays and the loop of RetryExecutor.
-- Multipliers are whole numbers, the jitter is in thousandths, and a delay with jitter is in
-- millionths of a microsecond, so that it is exact.
pub mod Attempts
pub mod Delays
use aduib_rpc.Prelude.{
  ℕ, Bool, List, Option, any, at_least, false, if◌then◌else◌, leb, ltb, min, none, some, suc, true,
  zero, ℤ, ◌&&◌, ◌*◌, ◌+◌, ◌-◌, ◌==◌, [],
}
use aduib_rpc.Exceptions.{
  Exn, rpc_instance, isinstance, circuit_breaker_open_error, rpc_exception, rpc_error,
}
use aduib_rpc.Resilience.CircuitBreaker.{
  Outcome, CallResult, CircuitBreaker, returned, value, raised, call, propagated, refused,
}

pub data RetryStrategy : Type 0 where
  fixed exponential linear : RetryStrategy

pub data RetryCondition : Type 0 where
  always on_error on_specific_codes : RetryCondition

pub record RetryPolicy : Type 0 where
  pub max_attempts : ℤ
  pub strategy : RetryStrategy
  pub initial_delay_ms : ℤ
  pub max_delay_ms : ℤ
  pub backoff_multiplier : ℤ
  pub jitter : ℤ
  pub retryable_codes : Option (List ℕ)
  pub respect_circuit_breaker : Bool

pub record RetryExecutor : Type 0 where
  pub max_attempts : ℕ
  pub strategy : RetryStrategy
  pub initial_delay_ms : ℕ
  pub max_delay_ms : ℕ
  pub backoff_multiplier : ℕ
  pub jitter : ℕ
  pub retryable_codes : Option (List ℕ)
  pub respect_circuit_breaker : Bool
  pub retry_condition : RetryCondition

condition_of : Option (List ℕ) → RetryCondition
condition_of (some codes) = on_specific_codes
condition_of none = on_error

-- `__init__`. The clamp of the jitter to at most 1 is the `min` with 1000 thousandths.
unfoldable pub init : RetryPolicy → RetryExecutor
unfolding condition_of
init policy = record {
  max_attempts = at_least 1 policy.max_attempts;
  strategy = policy.strategy;
  initial_delay_ms = at_least 0 policy.initial_delay_ms;
  max_delay_ms = at_least (at_least 0 policy.initial_delay_ms) policy.max_delay_ms;
  backoff_multiplier = at_least 1 policy.backoff_multiplier;
  jitter = min 1000 (at_least 0 policy.jitter);
  retryable_codes = policy.retryable_codes;
  respect_circuit_breaker = policy.respect_circuit_breaker;
  retry_condition = condition_of policy.retryable_codes;
}

retryable_under : RetryCondition → Option (List ℕ) → Exn → Bool
unfolding isinstance
retryable_under always codes e = true
retryable_under on_specific_codes (some codes) e =
    isinstance e rpc_exception && any (λ c. e.code == c) codes
retryable_under on_specific_codes none e = false
retryable_under on_error codes e = true

-- `_is_retryable_error`.
unfoldable pub is_retryable_error : RetryExecutor → Exn → Bool
unfolding retryable_under isinstance
is_retryable_error x e =
    if isinstance e (rpc_error circuit_breaker_open_error)
    then false
    else retryable_under x.retry_condition x.retryable_codes e

-- `_should_retry`.
unfoldable pub should_retry : RetryExecutor → ℕ → Exn → Bool
should_retry x attempt e = if leb x.max_attempts attempt then false else is_retryable_error x e

power : ℕ → ℕ → ℕ
power m zero = 1
power m (suc n) = m * power m n

-- The delay of `_compute_delay` before the jitter, in milliseconds.
strategy_delay : RetryStrategy → RetryExecutor → ℕ → ℕ
unfolding power
strategy_delay exponential x attempt = x.initial_delay_ms * power x.backoff_multiplier (attempt - 1)
strategy_delay linear x attempt = x.initial_delay_ms * attempt
strategy_delay fixed x attempt = x.initial_delay_ms

unfoldable pub base_delay : RetryExecutor → ℕ → ℕ
unfolding strategy_delay
base_delay x attempt = min x.max_delay_ms (strategy_delay x.strategy x attempt)

-- `_compute_delay` where `random.random()` is `r` millionths: `base + (2 r - 1) * jitter * base`, not
-- below zero, with every term times 10 ^ 9.
unfoldable pub compute_delay : RetryExecutor → ℕ → ℕ → ℕ
compute_delay x attempt r =
    let base = base_delay x attempt in
    if ltb 0 x.jitter && ltb 0 base
    then base * 1000000000 + 2 * r * (x.jitter * base) - 1000000 * (x.jitter * base)
    else base * 1000000000

-- The loop of `execute`. `invoke` calls the function once, directly or through the breaker, and
-- `pause k` is the sleep after attempt k, over a state `S` of all that they change.
abbrev assertion_error : Exn
assertion_error = record { mro = []; code = 0 }

abbrev last_error : Option Exn → Exn
last_error none = assertion_error
last_error (some e) = e

module _ {S A : Type 0} (x : RetryExecutor) (invoke : S → S × Outcome A) (pause : ℕ → S → S) where
  after_attempt : ℕ → S × Outcome A → (Option Exn → S → S × Outcome A) → S × Outcome A
  after_attempt attempt (s, returned a) next = (s, returned a)
  after_attempt attempt (s, raised e) next =
      if should_retry x attempt e then next (some e) (pause attempt s) else (s, raised e)

  -- `left` counts the rounds of the `for` that are left, `last` is `last_exc`.
  attempts : ℕ → ℕ → Option Exn → S → S × Outcome A
  unfolding after_attempt
  attempts zero attempt last s = (s, raised (last_error last))
  attempts (suc left) attempt last s =
      after_attempt attempt (invoke s) (attempts left (attempt + 1))

  -- `execute`.
  unfoldable pub execute : S → S × Outcome A
  unfolding attempts
  execute s = attempts x.max_attempts 1 none s

-- The CircuitBreakerOpenError as an exception.
abbrev pub open_exn : Exn
unfolding rpc_instance
open_exn = rpc_instance circuit_breaker_open_error

outcome_of {ℓ} : {A : Type ℓ} → CallResult A → Outcome A
outcome_of (value a) = returned a
outcome_of (propagated e) = raised e
outcome_of (refused e) = raised open_exn

-- What `_invoke` works on: the breaker, if one is given, the clock, what the function gives at each
-- of its calls, and how often it has been called.
pub record World (A : Type 0) : Type 0 where
  pub breaker : Option CircuitBreaker
  pub now : ℕ
  pub outcome : ℕ → Outcome A
  pub calls : ℕ

-- How often a call through the breaker calls the function.
calls_of {ℓ} : {A : Type ℓ} → CallResult A → ℕ
calls_of (value a) = 1
calls_of (propagated e) = 1
calls_of (refused e) = 0

module _ {A : Type 0} where
  invoke_direct : World A → World A × Outcome A
  invoke_direct w = (record w { calls = w.calls + 1 }, w.outcome w.calls)

  invoke_through : CircuitBreaker → World A → World A × Outcome A
  unfolding outcome_of calls_of
  invoke_through b w =
      let (b', result) = call w.now w.now (w.outcome w.calls) b in
      (record w { breaker = some b'; calls = w.calls + calls_of result }, outcome_of result)

  -- `_invoke`.
  unfoldable pub invoke : RetryExecutor → World A → World A × Outcome A
  unfolding invoke_direct invoke_through
  invoke x w = elim w.breaker [
    | none ↦ invoke_direct w
    | some b ↦ if x.respect_circuit_breaker then invoke_through b w else invoke_direct w
  ]
