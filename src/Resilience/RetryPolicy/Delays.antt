-- ===== src/Resilience/RetryPolicy/Delays.antt =====
-- The delays of src/aduib_rpc/resilience/retry_policy.py.
use native.Mathlib.Nat.{le_trans}
use aduib_rpc.Prelude.{ℕ, suc, ◌*◌, ◌+◌, ◌<◌, ◌≡◌, ◌≤◌, arith, refl, ◌-◌}
use aduib_rpc.Resilience.RetryPolicy.{
  init, compute_delay, base_delay, RetryPolicy, power, strategy_delay, RetryExecutor, RetryStrategy,
  fixed, linear, exponential,
}

mul_le_mul : (a b c d : ℕ) → a ≤ b → c ≤ d → a * c ≤ b * d
mul_le_mul a b c d h k =
    le_trans (let e : a * c ≤ b * c = grind arith in e) (let e : b * c ≤ b * d = grind arith in e)

base_delay-le : (x : RetryExecutor) (attempt : ℕ) → base_delay x attempt ≤ x.max_delay_ms
unfolding base_delay
base_delay-le x attempt = omega arith

-- The delay before the jitter never passes `max_delay_ms`, and with jitter `j` thousandths and any
-- random number the delay is within that part of it, below and above.
pub compute_delay_bounds :
    (policy : RetryPolicy) (attempt r : ℕ)
    → r < 1000000
    → let x = init policy in
      (base_delay x attempt ≤ x.max_delay_ms)
      × (base_delay x attempt * 1000000000
          ≤ compute_delay x attempt r + 1000000 * (x.jitter * base_delay x attempt))
      × (compute_delay x attempt r
          ≤ base_delay x attempt * 1000000000 + 1000000 * (x.jitter * base_delay x attempt))
unfolding compute_delay
compute_delay_bounds policy attempt r h =
    let x = init policy in
    let spread = x.jitter * base_delay x attempt in
    (
      base_delay-le x attempt,
      ground (arith, mul_le_mul r 1000000 spread spread (omega arith) (omega arith)),
      ground (arith, mul_le_mul r 1000000 spread spread (omega arith) (omega arith)),
    )

power_grows : (m n : ℕ) → 1 ≤ m → power m n ≤ power m (suc n)
unfolding power
power_grows m n h = omega (arith, mul_le_mul 1 m (power m n) (power m n) h (omega arith))

strategy_delay_grows :
    (k : RetryStrategy) (x : RetryExecutor) (attempt : ℕ)
    → 1 ≤ x.backoff_multiplier
    → strategy_delay k x (suc attempt) ≤ strategy_delay k x (suc (suc attempt))
unfolding strategy_delay
strategy_delay_grows fixed x attempt h = omega arith
strategy_delay_grows linear x attempt h =
    mul_le_mul x.initial_delay_ms x.initial_delay_ms (suc attempt) (suc (suc attempt)) (omega arith)
      (omega arith)
strategy_delay_grows exponential x attempt h =
    let e : suc attempt - 1 ≡ attempt = omega arith in
    let e' : suc (suc attempt) - 1 ≡ suc attempt = omega arith in
    rw (e, e')
      (mul_le_mul x.initial_delay_ms x.initial_delay_ms (power x.backoff_multiplier attempt)
        (power x.backoff_multiplier (suc attempt)) (omega arith)
        (power_grows x.backoff_multiplier attempt h))

strategy_delay_first :
    (k : RetryStrategy) (x : RetryExecutor) → strategy_delay k x 1 ≡ x.initial_delay_ms
unfolding strategy_delay power
strategy_delay_first fixed x = refl
strategy_delay_first linear x = omega arith
strategy_delay_first exponential x = omega arith

init_settings :
    (policy : RetryPolicy)
    → (1 ≤ (init policy).backoff_multiplier)
      × ((init policy).initial_delay_ms ≤ (init policy).max_delay_ms)
      × (1 ≤ (init policy).max_attempts)
unfolding init
init_settings policy = ground arith

-- With a policy the delays before the jitter do not fall from one attempt to the next, start at
-- `initial_delay_ms` under every strategy, and stay below the maximum.
pub base_delay_grows :
    (policy : RetryPolicy) (attempt : ℕ)
    → let x = init policy in
      (base_delay x 1 ≡ x.initial_delay_ms)
      × (base_delay x (suc attempt) ≤ base_delay x (suc (suc attempt)))
unfolding base_delay
base_delay_grows policy attempt =
    let x = init policy in
    let (factor, ordered, _) = init_settings policy in
    (
      omega (arith, strategy_delay_first x.strategy x, ordered),
      omega (arith, strategy_delay_grows x.strategy x attempt factor),
    )
