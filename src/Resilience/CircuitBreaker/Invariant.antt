-- ===== src/Resilience/CircuitBreaker/Invariant.antt =====
-- What holds of a CircuitBreaker between two critical sections.
use aduib_rpc.Prelude.{ℕ, ◌≤◌, ◌<◌, ◌≡◌, ◌≢◌, none, arith, Bool-cases, inl, inr}
use aduib_rpc.Resilience.CircuitBreaker.{
  CircuitState, closed, open_, half_open, CircuitBreakerConfig, CircuitBreaker, init, reset,
  before_call, Outcome, returned, raised, record_success, record_failure, record_ignored,
  is_excluded_exception, finish_call,
}

pub record IsValid (b : CircuitBreaker) : Type 0 where
  pub failures_allowed : 1 ≤ b.failure_threshold
  pub successes_needed : 1 ≤ b.success_threshold
  pub probes_allowed : 1 ≤ b.half_open_max_calls
  pub slots_bounded : b.half_open_in_flight ≤ b.half_open_max_calls
  pub slots_only_half_open : b.state ≢ half_open → b.half_open_in_flight ≡ 0
  pub closed_below : b.state ≡ closed → b.failure_count < b.failure_threshold
  pub closed_untimed : b.state ≡ closed → b.opened_at ≡ none
  pub open_timed : b.state ≡ open_ → b.opened_at ≢ none
  pub open_full : b.state ≡ open_ → b.failure_count ≡ b.failure_threshold
  pub half_open_untimed : b.state ≡ half_open → b.opened_at ≡ none
  pub half_open_below : b.state ≡ half_open → b.success_count < b.success_threshold
  pub successes_only_half_open : b.state ≢ half_open → b.success_count ≡ 0

pub init-IsValid : (config : CircuitBreakerConfig) → IsValid (init config)
unfolding init
init-IsValid config = ground arith

pub reset-IsValid : (b : CircuitBreaker) → IsValid b → IsValid (reset b)
unfolding reset
reset-IsValid b v = ground arith

pub before_call-IsValid : (now : ℕ) (b : CircuitBreaker) → IsValid b → IsValid (before_call now b).0
unfolding before_call
before_call-IsValid now b v = ground arith

pub record_success-IsValid :
    (started : CircuitState) (b : CircuitBreaker) → IsValid b → IsValid (record_success started b)
unfolding record_success
record_success-IsValid started b v = ground arith

pub record_failure-IsValid :
    (started : CircuitState) (now : ℕ) (b : CircuitBreaker)
    → IsValid b
    → IsValid (record_failure started now b)
unfolding record_failure
record_failure-IsValid started now b v = ground arith

pub record_ignored-IsValid :
    (started : CircuitState) (b : CircuitBreaker) → IsValid b → IsValid (record_ignored started b)
unfolding record_ignored
record_ignored-IsValid started b v = ground arith

pub finish_call-IsValid {ℓ} :
    {A : Type ℓ} (started : CircuitState) (now : ℕ) (o : Outcome A) (b : CircuitBreaker)
    → IsValid b
    → IsValid (finish_call started now o b)
unfolding finish_call
finish_call-IsValid started now (returned a) b v = record_success-IsValid started b v
finish_call-IsValid started now (raised e) b v = elim (Bool-cases (is_excluded_exception b e)) [
  | inl p ↦ rw p (record_ignored-IsValid started b v)
  | inr p ↦ rw p (record_failure-IsValid started now b v)
]
