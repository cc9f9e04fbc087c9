-- ===== src/Resilience/CircuitBreaker/Transitions.antt =====
-- The transitions that the head comment of src/aduib_rpc/resilience/circuit_breaker.py lists, and
-- when a call is let through.
use aduib_rpc.Prelude.{
  Bool-cases, arith, if◌then◌else◌, inl, inr, ltb, none, some, true, ℕ, ◌+◌, ◌-◌, ◌/◌, ◌<◌, ◌≡◌,
  ◌≢◌, ◌≤◌, ◌⊎◌,
}
use aduib_rpc.Exceptions.{Exn}
use aduib_rpc.Resilience.CircuitBreaker.{
  CircuitBreaker, CircuitState, Outcome, admit, before_call, call, closed, finish_call, half_open,
  is_excluded_exception, open_, raised, record_failure, record_ignored, record_success, reject,
  returned, OpenError, refused,
}
use aduib_rpc.Resilience.CircuitBreaker.Invariant.{IsValid}

-- The documented transitions of a critical section, each with its cause.
pub data Transition (now : ℕ) (b : CircuitBreaker) : CircuitState → Type 0 where
  stay : {t : CircuitState} → t ≡ b.state → Transition now b t
  trip : b.state ≡ closed → b.failure_threshold ≤ b.failure_count + 1 → Transition now b open_
  probe :
      (at : ℕ)
      → b.state ≡ open_
      → b.opened_at ≡ some at
      → (b.timeout_us ≡ 0) ⊎ (at + b.timeout_us ≤ now)
      → Transition now b half_open
  recover :
      b.state ≡ half_open → b.success_threshold ≤ b.success_count + 1 → Transition now b closed
  relapse : b.state ≡ half_open → Transition now b open_

-- A beginning call moves a valid breaker only from open to half-open, and only when the timeout is
-- zero or has passed since the breaker opened.
pub before_call-Transition :
    (now : ℕ) (b : CircuitBreaker) → IsValid b → Transition now b (before_call now b).0.state
unfolding before_call
before_call-Transition now b v = grind (arith, stay, probe)

record_success-Transition :
    (started : CircuitState) (now : ℕ) (b : CircuitBreaker)
    → Transition now b (record_success started b).state
unfolding record_success
record_success-Transition started now b = grind (arith, stay, recover)

record_failure-Transition :
    (started : CircuitState) (now : ℕ) (b : CircuitBreaker)
    → Transition now b (record_failure started now b).state
unfolding record_failure
record_failure-Transition started now b = grind (arith, stay, trip, relapse)

record_ignored-Transition :
    (started : CircuitState) (now : ℕ) (b : CircuitBreaker)
    → Transition now b (record_ignored started b).state
unfolding record_ignored
record_ignored-Transition started now b = grind (arith, stay)

-- The end of a call, whatever its outcome, stays in the breaker's state or moves from closed to
-- open at the failure threshold, from half-open to closed at the success threshold, or from
-- half-open to open.
pub finish_call-Transition {ℓ} :
    {A : Type ℓ} (started : CircuitState) (now : ℕ) (o : Outcome A) (b : CircuitBreaker)
    → Transition now b (finish_call started now o b).state
unfolding finish_call
finish_call-Transition started now (returned a) b = record_success-Transition started now b
finish_call-Transition started now (raised e) b = elim (Bool-cases (is_excluded_exception b e)) [
  | inl p ↦ rw p (record_ignored-Transition started now b)
  | inr p ↦ rw p (record_failure-Transition started now b)
]

-- In a valid breaker that opened at `at` and has a timeout, a call is refused exactly before
-- `at + timeout`, with the rest of the timeout in whole milliseconds and the breaker as it was;
-- from then on it is let through as the first probe of a half-open breaker.
pub before_call_of_open :
    (now at : ℕ) (b : CircuitBreaker)
    → IsValid b
    → b.state ≡ open_
    → b.opened_at ≡ some at
    → 0 < b.timeout_us
    → before_call now b ≡ (
        if ltb now (at + b.timeout_us)
        then (
          b,
          reject (record { state = open_; retry_after_ms = (at + b.timeout_us - now) / 1000 }),
        )
        else (
          record b {
            state = half_open;
            opened_at = none;
            failure_count = 0;
            success_count = 0;
            half_open_in_flight = 1;
          },
          admit half_open,
        ))
unfolding before_call
before_call_of_open now at b v o t p = ground arith

-- A half-open breaker lets a call through exactly while a slot is free, and takes one slot for it.
pub before_call_of_half_open :
    (now : ℕ) (b : CircuitBreaker)
    → b.state ≡ half_open
    → before_call now b ≡ (
        if ltb b.half_open_in_flight b.half_open_max_calls
        then (record b { half_open_in_flight = b.half_open_in_flight + 1 }, admit half_open)
        else (b, reject (record { state = half_open; retry_after_ms = 0 })))
unfolding before_call
before_call_of_half_open now b h = ground arith

-- An excluded exception counts for nothing: a call that is let through a closed or half-open
-- breaker and raises one leaves the breaker as it was.
pub call_excluded {ℓ} :
    (A : Type ℓ) (begun finished : ℕ) (e : Exn) (b : CircuitBreaker)
    → b.state ≢ open_
    → is_excluded_exception b e ≡ true
    → (call {A = A} begun finished (raised e) b).0 ≡ b
unfolding call
call_excluded A begun finished e b h x = ground arith

-- Before the timeout a call of an open breaker is refused, and the breaker stays as it was.
pub call_of_open {ℓ} :
    {A : Type ℓ} (begun finished at : ℕ) (o : Outcome A) (b : CircuitBreaker)
    → b.state ≡ open_
    → b.opened_at ≡ some at
    → 0 < b.timeout_us
    → begun < at + b.timeout_us
    → (e : OpenError) × (call begun finished o b ≡ (b, refused e))
unfolding call
call_of_open begun finished at o b s t p early =
    (record { state = open_; retry_after_ms = (at + b.timeout_us - begun) / 1000 }, ground arith)
