-- ===== src/Tests/CircuitBreaker.antt =====
-- src/aduib_rpc/resilience/circuit_breaker.py on concrete breakers.
use aduib_rpc.Prelude.{
  [], arith, if◌then◌else◌, length, ltb, none, pos, refl, some, ◌+◌, ◌-◌, ◌/◌, ◌∷◌, ◌≡◌,
}
use aduib_rpc.Exceptions.{Exn, rpc_instance, dependency_error, rpc_error, bad_request_error}
use aduib_rpc.Resilience.CircuitBreaker.{
  init, is_excluded_exception, CircuitBreaker, CircuitBreakerConfig, before_call, call, admit,
  reject, closed, half_open, open_, raised, returned,
}
use aduib_rpc.Resilience.CircuitBreaker.Counting.{fail_all, fail_all_opens}
use aduib_rpc.Resilience.CircuitBreaker.Transitions.{before_call_of_open}
use aduib_rpc.Resilience.CircuitBreaker.Invariant.{IsValid}
use aduib_rpc.Resilience.CircuitBreaker.Schedule.{run, finish, begin, run-IsValid}
use aduib_rpc.Resilience.CircuitBreaker.Overlap.{begin_many, overlap_exceeds}

-- Two failures open the breaker for 10 ms, two successes close it, two probes at a time.
abbrev config : CircuitBreakerConfig
config = record {
  failure_threshold = pos 2;
  success_threshold = pos 2;
  timeout_us = pos 10000;
  half_open_max_calls = pos 2;
  excluded_exceptions = rpc_error bad_request_error ∷ [];
}

abbrev fresh : CircuitBreaker
unfolding init
fresh = init config

abbrev opened : CircuitBreaker
opened = record {
  failure_threshold = 2;
  success_threshold = 2;
  timeout_us = 10000;
  half_open_max_calls = 2;
  excluded_exceptions = rpc_error bad_request_error ∷ [];
  state = open_;
  failure_count = 2;
  success_count = 0;
  opened_at = some 700;
  half_open_in_flight = 0;
}

abbrev probed : CircuitBreaker
probed = record opened {
  state = half_open;
  failure_count = 0;
  opened_at = none;
  half_open_in_flight = 1;
}

abbrev failure : Exn
unfolding rpc_instance
failure = rpc_instance dependency_error

abbrev bad_request : Exn
unfolding rpc_instance
bad_request = rpc_instance bad_request_error

two_failures_open : fail_all failure (600 ∷ 700 ∷ []) fresh ≡ opened
unfolding init fail_all call rpc_instance
two_failures_open = refl

refusal : before_call 5000 opened ≡ (opened, reject (record { state = open_; retry_after_ms = 5 }))
unfolding before_call
refusal = refl

opened-IsValid : IsValid opened
opened-IsValid = ground arith

probed-IsValid : IsValid probed
probed-IsValid = ground arith

run-IsValid_example :
    IsValid
      (run
        (begin 20000 ∷ begin 20001 ∷ finish 0 20002 (returned tt) ∷ [])
        (record { breaker = opened; running = [] })).breaker
run-IsValid_example =
    run-IsValid (begin 20000 ∷ begin 20001 ∷ finish 0 20002 (returned tt) ∷ [])
      (record { breaker = opened; running = [] }) opened-IsValid

before_call_of_open_example : before_call 5000 opened ≡ (
    if ltb 5000 (700 + 10000)
    then (opened, reject (record { state = open_; retry_after_ms = (700 + 10000 - 5000) / 1000 }))
    else (probed, admit half_open))
before_call_of_open_example =
    before_call_of_open 5000 700 opened opened-IsValid refl refl (omega arith)

fail_all_opens_example :
    ((fail_all failure (600 ∷ []) fresh).state ≡ closed)
    × ((fail_all failure (600 ∷ []) fresh).failure_count ≡ 0 + 1)
    × ((fail_all failure (600 ∷ 700 ∷ []) fresh).state ≡ open_)
    × ((fail_all failure (600 ∷ 700 ∷ []) fresh).opened_at ≡ some 700)
unfolding init is_excluded_exception rpc_instance
fail_all_opens_example = fail_all_opens failure (600 ∷ []) 700 fresh refl refl refl

overlap_exceeds_example :
    length
      (run
        (finish 0 5000 (raised failure) ∷ begin_many 2 15000)
        (record { breaker = probed; running = half_open ∷ half_open ∷ [] })).running
    ≡ 1 + 2
unfolding is_excluded_exception rpc_instance
overlap_exceeds_example =
    overlap_exceeds 5000 15000 1 failure probed (half_open ∷ []) probed-IsValid refl refl
      (omega arith) (omega arith) refl
