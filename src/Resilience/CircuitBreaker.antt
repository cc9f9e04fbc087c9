-- ===== src/Resilience/CircuitBreaker.antt =====
-- src/aduib_rpc/resilience/circuit_breaker.py: the state of a CircuitBreaker and each of its
-- methods. A method that takes the lock is one step from state to state; the reading of the clock
-- that it makes is an argument, in microseconds, as is the configured timeout.
pub mod Invariant
pub mod Schedule
pub mod Transitions
pub mod Counting
pub mod Overlap
use aduib_rpc.Prelude.{
  ℕ, ◌+◌, ◌-◌, ◌/◌, Bool, true, false, Option, none, some, List, any, ltb, leb, if◌then◌else◌, ℤ,
  at_least,
}
use aduib_rpc.Exceptions.{ExcClass, Exn, isinstance}

pub data CircuitState : Type 0 where
  closed open_ half_open : CircuitState

pub record CircuitBreakerConfig : Type 0 where
  pub failure_threshold : ℤ
  pub success_threshold : ℤ
  pub timeout_us : ℤ
  pub half_open_max_calls : ℤ
  pub excluded_exceptions : List ExcClass

pub record CircuitBreaker : Type 0 where
  pub failure_threshold : ℕ
  pub success_threshold : ℕ
  pub timeout_us : ℕ
  pub half_open_max_calls : ℕ
  pub excluded_exceptions : List ExcClass
  pub state : CircuitState
  pub failure_count : ℕ
  pub success_count : ℕ
  pub opened_at : Option ℕ
  pub half_open_in_flight : ℕ

-- `__init__`.
unfoldable pub init : CircuitBreakerConfig → CircuitBreaker
init config = record {
  failure_threshold = at_least 1 config.failure_threshold;
  success_threshold = at_least 1 config.success_threshold;
  timeout_us = at_least 0 config.timeout_us;
  half_open_max_calls = at_least 1 config.half_open_max_calls;
  excluded_exceptions = config.excluded_exceptions;
  state = closed;
  failure_count = 0;
  success_count = 0;
  opened_at = none;
  half_open_in_flight = 0;
}

-- `_open_timeout_elapsed`: `now - opened_at >= timeout`, without the subtraction.
open_timeout_elapsed : ℕ → CircuitBreaker → Bool
open_timeout_elapsed now b = elim b.opened_at [
  | none ↦ false
  | some at ↦ leb (at + b.timeout_us) now
]

-- `_enter_open_locked`: the time is set only on a change of state.
enter_open_at : CircuitState → ℕ → CircuitBreaker → CircuitBreaker
enter_open_at open_ now b = b
enter_open_at closed now b = record b { state = open_; opened_at = some now }
enter_open_at half_open now b = record b { state = open_; opened_at = some now }

enter_open : ℕ → CircuitBreaker → CircuitBreaker
unfolding enter_open_at
enter_open now b = record (enter_open_at b.state now b) {
  failure_count = b.failure_threshold;
  success_count = 0;
  half_open_in_flight = 0;
}

-- `_enter_half_open_locked`.
enter_half_open : CircuitBreaker → CircuitBreaker
enter_half_open b = record b {
  state = half_open;
  opened_at = none;
  failure_count = 0;
  success_count = 0;
  half_open_in_flight = 0;
}

-- `_enter_closed_locked`.
enter_closed : CircuitBreaker → CircuitBreaker
enter_closed b = record b {
  state = closed;
  opened_at = none;
  failure_count = 0;
  success_count = 0;
  half_open_in_flight = 0;
}

-- `reset`.
unfoldable pub reset : CircuitBreaker → CircuitBreaker
unfolding enter_closed
reset b = enter_closed b

-- `_maybe_transition_to_half_open_locked`.
maybe_half_open_of : CircuitState → ℕ → CircuitBreaker → CircuitBreaker
unfolding open_timeout_elapsed enter_half_open
maybe_half_open_of open_ now b =
    if leb b.timeout_us 0
    then enter_half_open b
    else if open_timeout_elapsed now b
    then enter_half_open b
    else b
maybe_half_open_of closed now b = b
maybe_half_open_of half_open now b = b

maybe_half_open : ℕ → CircuitBreaker → CircuitBreaker
unfolding maybe_half_open_of
maybe_half_open now b = maybe_half_open_of b.state now b

-- The data of the CircuitBreakerOpenError that `_build_open_error` makes.
pub record OpenError : Type 0 where
  pub state : CircuitState
  pub retry_after_ms : ℕ

-- `max(0, timeout - (now - opened_at))`, in whole milliseconds.
retry_after_of : CircuitState → Option ℕ → ℕ → ℕ → ℕ
retry_after_of open_ (some at) timeout now = (at + timeout - now) / 1000
retry_after_of open_ none timeout now = 0
retry_after_of closed at timeout now = 0
retry_after_of half_open at timeout now = 0

build_open_error : ℕ → CircuitBreaker → OpenError
unfolding retry_after_of
build_open_error now b = record {
  state = b.state;
  retry_after_ms = retry_after_of b.state b.opened_at b.timeout_us now;
}

-- What `_before_call` gives: the state that the call starts under, or the error.
pub data Admission : Type 0 where
  admit : CircuitState → Admission
  reject : OpenError → Admission

-- The tests of `_before_call` after the transition, with `_acquire_half_open_slot_locked`.
admission : CircuitState → ℕ → CircuitBreaker → CircuitBreaker × Admission
unfolding build_open_error
admission open_ now b = (b, reject (build_open_error now b))
admission half_open now b =
    if leb b.half_open_max_calls b.half_open_in_flight
    then (b, reject (build_open_error now b))
    else (record b { half_open_in_flight = b.half_open_in_flight + 1 }, admit half_open)
admission closed now b = (b, admit closed)

-- `_before_call`.
unfoldable pub before_call : ℕ → CircuitBreaker → CircuitBreaker × Admission
unfolding admission maybe_half_open
before_call now b = admission (maybe_half_open now b).state now (maybe_half_open now b)

-- `_release_half_open_slot_locked`: on ℕ the subtraction stops at 0, as its guard does.
release_slot : CircuitBreaker → CircuitBreaker
release_slot b =
    if ltb 0 b.half_open_in_flight
    then record b { half_open_in_flight = b.half_open_in_flight - 1 }
    else b

-- The count of a failure in the closed state.
count_failure : ℕ → CircuitBreaker → CircuitBreaker
unfolding enter_open
count_failure now b =
    let b' = record b { failure_count = b.failure_count + 1 } in
    if leb b'.failure_threshold b'.failure_count then enter_open now b' else b'

-- The count of a success in the half-open state.
count_success : CircuitBreaker → CircuitBreaker
unfolding enter_closed
count_success b =
    let b' = record b { success_count = b.success_count + 1 } in
    if leb b'.success_threshold b'.success_count then enter_closed b' else b'

-- What a success does, by the state that the breaker is in now.
success_in : CircuitState → Bool → CircuitBreaker → CircuitBreaker
unfolding count_success
success_in half_open true b = count_success b
success_in half_open false b = b
success_in closed started b = record b { failure_count = 0 }
success_in open_ started b = b

started_half_open : CircuitState → Bool
started_half_open half_open = true
started_half_open closed = false
started_half_open open_ = false

-- `_record_success`: a call that started half-open gives its slot back first.
unfoldable pub record_success : CircuitState → CircuitBreaker → CircuitBreaker
unfolding success_in release_slot started_half_open
record_success half_open b = success_in b.state true (release_slot b)
record_success closed b = success_in b.state false b
record_success open_ b = success_in b.state false b

failure_in : CircuitState → Bool → ℕ → CircuitBreaker → CircuitBreaker
unfolding enter_open count_failure
failure_in half_open true now b = enter_open now b
failure_in half_open false now b = b
failure_in closed started now b = count_failure now b
failure_in open_ started now b = b

-- `_record_failure`.
unfoldable pub record_failure : CircuitState → ℕ → CircuitBreaker → CircuitBreaker
unfolding failure_in release_slot
record_failure half_open now b = failure_in b.state true now (release_slot b)
record_failure closed now b = failure_in b.state false now b
record_failure open_ now b = failure_in b.state false now b

-- `_record_ignored`.
unfoldable pub record_ignored : CircuitState → CircuitBreaker → CircuitBreaker
unfolding release_slot
record_ignored half_open b = release_slot b
record_ignored closed b = b
record_ignored open_ b = b

-- `_is_excluded_exception`.
unfoldable pub is_excluded_exception : CircuitBreaker → Exn → Bool
unfolding isinstance
is_excluded_exception b e = any (isinstance e) b.excluded_exceptions

-- What the guarded callable does: it returns, or it raises.
pub data Outcome {ℓ} (A : Type ℓ) : Type ℓ where
  returned : A → Outcome A
  raised : Exn → Outcome A

-- The end of `call`: the record that fits the outcome.
unfoldable pub finish_call {ℓ} :
    {A : Type ℓ} → CircuitState → ℕ → Outcome A → CircuitBreaker → CircuitBreaker
unfolding record_success record_failure record_ignored is_excluded_exception
finish_call started now (returned a) b = record_success started b
finish_call started now (raised e) b =
    if is_excluded_exception b e then record_ignored started b else record_failure started now b

-- What `call` gives its caller.
pub data CallResult {ℓ} (A : Type ℓ) : Type ℓ where
  value : A → CallResult A
  propagated : Exn → CallResult A
  refused : OpenError → CallResult A

abbrev result_of {ℓ} : {A : Type ℓ} → Outcome A → CallResult A
result_of (returned a) = value a
result_of (raised e) = propagated e

call_after {ℓ} :
    {A : Type ℓ} → CircuitBreaker × Admission → ℕ → Outcome A → CircuitBreaker × CallResult A
unfolding finish_call
call_after (b, reject e) finished o = (b, refused e)
call_after (b, admit started) finished o = (finish_call started finished o b, result_of o)

-- `call`, where no other call of the breaker comes between its two critical sections: the clock
-- at each of them, and what the callable does.
unfoldable pub call {ℓ} :
    {A : Type ℓ} → ℕ → ℕ → Outcome A → CircuitBreaker → CircuitBreaker × CallResult A
unfolding before_call call_after
call begun finished o b = call_after (before_call begun b) finished o
