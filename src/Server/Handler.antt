-- ===== src/Server/Handler.antt =====
-- ResilienceHandler of src/aduib_rpc/server/interceptors/resilience.py. The handler that it wraps
-- changes a state S. A breaker that refuses raises CircuitBreakerOpenError.
pub mod Recovery
pub mod Cached
use aduib_rpc.Prelude.{Option, none, some, ℕ}
use aduib_rpc.Exceptions.{Exn, circuit_breaker_open_error, rpc_instance}
use aduib_rpc.Resilience.CircuitBreaker
use aduib_rpc.Resilience.CircuitBreaker.{
  CircuitBreaker, Outcome, returned, raised, Admission, admit, reject, before_call, finish_call,
}
use aduib_rpc.Resilience.Fallback
use aduib_rpc.Resilience.Fallback.{FallbackPolicy, World}

abbrev pub open_exn : Exn
unfolding rpc_instance
open_exn = rpc_instance circuit_breaker_open_error

-- What a request leaves: the breaker, the state with the places of the cached fallbacks, and what
-- `handle` returns or raises.
pub record Served (S A : Type 0) : Type 0 where
  pub breaker : Option CircuitBreaker
  pub world : World S A
  pub outcome : Outcome A

-- The fallback executor's answer, in the place of an outcome.
replaced : {S A : Type 0} → Option CircuitBreaker → World S A × Outcome A → Served S A
replaced b (w, o) = record { breaker = b; world = w; outcome = o }

module _ {S Call A : Type 0} where
  -- The handler after the breaker's answer, with the clock at its end.
  guarded :
      CircuitBreaker × Admission → ℕ → (Call → S → S × Outcome A) → Call → World S A → Served S A
  unfolding finish_call
  guarded (b, reject e) finished handler c w = record {
    breaker = some b;
    world = w;
    outcome = raised open_exn;
  }
  guarded (b, admit started) finished handler c w = record {
    breaker = some (finish_call started finished (handler c w.outer).1 b);
    world = record w { outer = (handler c w.outer).0 };
    outcome = (handler c w.outer).1;
  }

  -- The body of the `try` of `handle`.
  unfoldable pub attempt :
      ℕ → ℕ → (Call → S → S × Outcome A) → Call → Option CircuitBreaker → World S A → Served S A
  unfolding guarded before_call
  attempt begun finished handler c none w = record {
    breaker = none;
    world = record w { outer = (handler c w.outer).0 };
    outcome = (handler c w.outer).1;
  }
  attempt begun finished handler c (some b) w = guarded (before_call begun b) finished handler c w

  -- The `except Exception` of `handle`.
  recover :
      Option (FallbackPolicy S Call A)
      → (Call → S → S × Outcome A)
      → Call
      → Outcome A
      → Served S A
      → Served S A
  unfolding replaced
  recover fallback handler c (returned a) r = r
  recover none handler c (raised e) r = r
  recover (some x) handler c (raised e) r =
      replaced r.breaker (Fallback.execute x handler c r.world)

  -- `handle`, where no other call of the breaker comes between its two critical sections: the
  -- clock at each of them.
  unfoldable pub handle :
      ℕ
      → ℕ
      → Option (FallbackPolicy S Call A)
      → (Call → S → S × Outcome A)
      → Call
      → Option CircuitBreaker
      → World S A
      → Served S A
  unfolding attempt recover
  handle begun finished fallback handler c b w =
      recover fallback handler c (attempt begun finished handler c b w).outcome
        (attempt begun finished handler c b w)
