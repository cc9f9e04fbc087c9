-- ===== src/Resilience/CircuitBreaker/Overlap.antt =====
-- The limit on half-open calls of src/aduib_rpc/resilience/circuit_breaker.py when calls overlap:
-- a transition sets the number of taken slots to zero while calls that took slots still run.
use aduib_rpc.Prelude.{
  List, [], arith, length, suc, zero, ℕ, ◌+◌, ◌∷◌, ◌≡◌, ◌≤◌, false, length-append, ◌++◌, ◌<◌, ◌∙◌,
  ap, none, refl, some, ◌-◌,
}
use aduib_rpc.Resilience.CircuitBreaker.{
  half_open, before_call, CircuitBreaker, CircuitState, finish_call, is_excluded_exception, open_,
  raised,
}
use aduib_rpc.Resilience.CircuitBreaker.Schedule.{Event, System, begin, run, step, finish}
use aduib_rpc.Exceptions.{Exn}
use aduib_rpc.Resilience.CircuitBreaker.Invariant.{IsValid}

-- Calls that all begin at one time.
unfoldable pub begin_many : ℕ → ℕ → List Event
begin_many zero t = []
begin_many (suc n) t = begin t ∷ begin_many n t

begin_half_open :
    (t : ℕ) (s : System)
    → s.breaker.state ≡ half_open
    → s.breaker.half_open_in_flight < s.breaker.half_open_max_calls
    → step (begin t) s ≡ record {
      breaker = record (s.breaker) { half_open_in_flight = s.breaker.half_open_in_flight + 1 };
      running = s.running ++ half_open ∷ [];
    }
unfolding step before_call
begin_half_open t s h r = ground arith

begun_in_half_open :
    (n t : ℕ) (s : System)
    → s.breaker.state ≡ half_open
    → s.breaker.half_open_in_flight + n ≤ s.breaker.half_open_max_calls
    → length (run (begin_many n t) s).running ≡ length s.running + n
unfolding run begin_many
begun_in_half_open zero t s h r = omega arith
begun_in_half_open (suc n) t s h r =
    let s' : System = record {
      breaker = record (s.breaker) { half_open_in_flight = s.breaker.half_open_in_flight + 1 };
      running = s.running ++ half_open ∷ [];
    } in
    ap (λ u. length (run (begin_many n t) u).running) (begin_half_open t s h (omega arith))
    ∙ begun_in_half_open n t s' h (omega arith)
    ∙ omega (arith, length-append s.running (half_open ∷ []))

-- A breaker that a failing half-open call opens again.
reopened : ℕ → CircuitBreaker → CircuitBreaker
reopened now b = record b {
  state = open_;
  opened_at = some now;
  failure_count = b.failure_threshold;
  success_count = 0;
  half_open_in_flight = 0;
}

fail_half_open :
    (now : ℕ) (e : Exn) (b : CircuitBreaker) (others : List CircuitState)
    → b.state ≡ half_open
    → is_excluded_exception b e ≡ false
    → step (finish 0 now (raised e)) (record { breaker = b; running = half_open ∷ others })
      ≡ record { breaker = reopened now b; running = others }
unfolding step finish_call reopened
fail_half_open now e b others h x = ground arith

-- The first probe of a reopened breaker.
probing : CircuitBreaker → CircuitBreaker
probing b = record b {
  state = half_open;
  opened_at = none;
  failure_count = 0;
  success_count = 0;
  half_open_in_flight = 1;
}

first_probe :
    (now t : ℕ) (b : CircuitBreaker) (others : List CircuitState)
    → IsValid b
    → 0 < b.timeout_us
    → now + b.timeout_us ≤ t
    → step (begin t) (record { breaker = reopened now b; running = others })
      ≡ record { breaker = probing b; running = others ++ half_open ∷ [] }
unfolding step before_call reopened probing
first_probe now t b others v p q = ground arith

-- From a half-open breaker that has a running half-open call and m other running calls, one failing
-- call followed, after the timeout, by as many beginning calls as the limit allows leaves m calls
-- plus the whole limit running at once, so the limit on calls in flight does not hold of the calls
-- that run.
pub overlap_exceeds :
    (now t m : ℕ) (e : Exn) (b : CircuitBreaker) (others : List CircuitState)
    → IsValid b
    → b.state ≡ half_open
    → is_excluded_exception b e ≡ false
    → 0 < b.timeout_us
    → now + b.timeout_us ≤ t
    → length others ≡ m
    → length
        (run
          (finish 0 now (raised e) ∷ begin_many b.half_open_max_calls t)
          (record { breaker = b; running = half_open ∷ others })).running
      ≡ m + b.half_open_max_calls
unfolding run probing begin_many
overlap_exceeds now t m e b others v h x p q l =
    let n = b.half_open_max_calls - 1 in
    let after : System = record { breaker = probing b; running = others ++ half_open ∷ [] } in
    let limit : b.half_open_max_calls ≡ suc n = omega arith in
    ap (λ u. length (run (begin_many b.half_open_max_calls t) u).running)
      (fail_half_open now e b others h x)
    ∙ ap
        (λ k.
          length
            (run (begin_many k t) (record { breaker = reopened now b; running = others })).running)
        limit
    ∙ ap (λ u. length (run (begin_many n t) u).running) (first_probe now t b others v p q)
    ∙ begun_in_half_open n t after refl (omega arith)
    ∙ omega (arith, length-append others (half_open ∷ []))
