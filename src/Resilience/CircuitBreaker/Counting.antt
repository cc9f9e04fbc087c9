-- ===== src/Resilience/CircuitBreaker/Counting.antt =====
-- The thresholds of src/aduib_rpc/resilience/circuit_breaker.py, over runs of calls of which each
-- ends before the next begins.
use aduib_rpc.Prelude.{List, [], arith, false, length, none, some, ℕ, ◌++◌, ◌+◌, ◌<◌, ◌∷◌, ◌≡◌, ◌∙◌}
use aduib_rpc.Exceptions.{Exn}
use aduib_rpc.Resilience.CircuitBreaker.{
  CircuitBreaker, call, closed, half_open, is_excluded_exception, open_, raised, returned, value,
}

-- Calls at the given times that all raise `e`.
unfoldable pub fail_all : Exn → List ℕ → CircuitBreaker → CircuitBreaker
fail_all e [] b = b
fail_all e (t ∷ ts) b = fail_all e ts (call {A = Unit {0}} t t (raised e) b).0

-- Calls at the given times that all return.
unfoldable pub succeed_all : List ℕ → CircuitBreaker → CircuitBreaker
succeed_all [] b = b
succeed_all (t ∷ ts) b = succeed_all ts (call t t (returned (tt {0})) b).0

module _ (e : Exn) where
  failed_once :
      (t : ℕ) (b : CircuitBreaker)
      → b.state ≡ closed
      → is_excluded_exception b e ≡ false
      → b.failure_count + 1 < b.failure_threshold
      → (call {A = Unit {0}} t t (raised e) b).0 ≡ record b { failure_count = b.failure_count + 1 }
  unfolding call
  failed_once t b c x h = ground arith

  failed_last :
      (t : ℕ) (b : CircuitBreaker)
      → b.state ≡ closed
      → is_excluded_exception b e ≡ false
      → b.failure_count + 1 ≡ b.failure_threshold
      → ((call {A = Unit {0}} t t (raised e) b).0.state ≡ open_)
        × ((call {A = Unit {0}} t t (raised e) b).0.opened_at ≡ some t)
  unfolding call
  failed_last t b c x h = ground arith

  -- A closed breaker counts each failing call that is not excluded, stays closed below the
  -- threshold, and opens, at the time of that call, with the failure that reaches it.
  pub fail_all_opens :
      (ts : List ℕ) (t : ℕ) (b : CircuitBreaker)
      → b.state ≡ closed
      → is_excluded_exception b e ≡ false
      → b.failure_count + length ts + 1 ≡ b.failure_threshold
      → ((fail_all e ts b).state ≡ closed)
        × ((fail_all e ts b).failure_count ≡ b.failure_count + length ts)
        × ((fail_all e (ts ++ t ∷ []) b).state ≡ open_)
        × ((fail_all e (ts ++ t ∷ []) b).opened_at ≡ some t)
  unfolding fail_all is_excluded_exception
  fail_all_opens [] t b c x h =
      let (o, a) = failed_last t b c x (omega arith) in (c, omega arith, o, a)
  fail_all_opens (u ∷ ts) t b c x h =
      let b' = record b { failure_count = b.failure_count + 1 } in
      let (still, count, opens, at) = fail_all_opens ts t b' c x (omega arith) in
      rw (failed_once u b c x (omega arith), fail_all) (still, count ∙ omega arith, opens, at)

-- A success in the closed state starts the count of failures again.
pub call_success_closed :
    (begun finished : ℕ) (b : CircuitBreaker)
    → b.state ≡ closed
    → call begun finished (returned (tt {0})) b ≡ (record b { failure_count = 0 }, value tt)
unfolding call
call_success_closed begun finished b c = ground arith

module _ (t : ℕ) (b : CircuitBreaker) (h : b.state ≡ half_open) where
  succeeded_once :
      b.half_open_in_flight < b.half_open_max_calls
      → b.success_count + 1 < b.success_threshold
      → (call t t (returned (tt {0})) b).0 ≡ record b { success_count = b.success_count + 1 }
  unfolding call
  succeeded_once s k = ground arith

  succeeded_last :
      b.half_open_in_flight < b.half_open_max_calls
      → b.success_count + 1 ≡ b.success_threshold
      → (call t t (returned (tt {0})) b).0 ≡ record b {
        state = closed;
        opened_at = none;
        failure_count = 0;
        success_count = 0;
        half_open_in_flight = 0;
      }
  unfolding call
  succeeded_last s k = ground arith

-- A half-open breaker with a free slot stays half-open while the successes are below the threshold,
-- and with the success that reaches it is closed with all its counters at zero.
pub succeed_all_closes :
    (ts : List ℕ) (t : ℕ) (b : CircuitBreaker)
    → b.state ≡ half_open
    → b.half_open_in_flight < b.half_open_max_calls
    → b.success_count + length ts + 1 ≡ b.success_threshold
    → ((succeed_all ts b).state ≡ half_open)
      × (succeed_all (ts ++ t ∷ []) b ≡ record b {
        state = closed;
        opened_at = none;
        failure_count = 0;
        success_count = 0;
        half_open_in_flight = 0;
      })
unfolding succeed_all
succeed_all_closes [] t b h s k = (h, succeeded_last t b h s (omega arith))
succeed_all_closes (u ∷ ts) t b h s k =
    let b' = record b { success_count = b.success_count + 1 } in
    rw (succeeded_once u b h s (omega arith), succeed_all)
      (succeed_all_closes ts t b' h s (omega arith))
