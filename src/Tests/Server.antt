-- ===== src/Tests/Server.antt =====
-- src/aduib_rpc/server/interceptors/resilience.py on concrete requests, over a state that counts
-- the runs of the handler.
use native.Mathlib.Decide.{ℕ_discrete}
use aduib_rpc.Prelude.{List, [], arith, false, none, pos, refl, some, true, ℕ, ◌+◌, ◌∷◌, ◌≡◌, ◌≤◌}
use aduib_rpc.Prelude.Dict
use aduib_rpc.Exceptions.{Exn}
use aduib_rpc.Resilience.Bulkhead.{Bulkhead, BulkheadConfig}
use aduib_rpc.Resilience.CircuitBreaker.{CircuitBreaker, Outcome, open_, returned, raised}
use aduib_rpc.Resilience.Fallback
use aduib_rpc.Resilience.Fallback.{FallbackPolicy, World, cached_value, handler_then, static_value}
use aduib_rpc.Resilience.RateLimiter
use aduib_rpc.Resilience.RateLimiter.{RateLimiterConfig, token_bucket}
use aduib_rpc.Server.Handler.{handle, attempt, open_exn}
use aduib_rpc.Server.Handler.Recovery.{handle_bypasses_breaker}
use aduib_rpc.Server.Interceptor
use aduib_rpc.Server.Interceptor.{ServerResilience, ServerResilienceConfig}
use aduib_rpc.Server.Interceptor.Requests.{Event, arrives, permits, start}
use aduib_rpc.Server.Interceptor.Requests
use aduib_rpc.Server.Interceptor.Requests.Permits.{permits_bounded}
use aduib_rpc.Server.Interceptor.Tenants.{
  alone, limit_all, answers_of, times_of, limit_all_isolated,
}

abbrev error : Exn
error = record { mro = []; code = 0 }

abbrev policy : FallbackPolicy ℕ ℕ ℕ
policy = record {
  handlers = handler_then (cached_value 0) (handler_then (static_value 7) Fallback.no_handlers);
  fallback_on = none;
  propagate_original_error = true;
  include_context = true;
}

abbrev world : World ℕ ℕ
world = record { outer = 0; caches = [] }

abbrev good : ℕ → ℕ → ℕ × Outcome ℕ
good c s = (s + 1, returned (c + 1))

abbrev bad : ℕ → ℕ → ℕ × Outcome ℕ
bad c s = (s + 1, raised error)

abbrev breaker : CircuitBreaker
breaker = record {
  failure_threshold = 5;
  success_threshold = 2;
  timeout_us = 1000;
  half_open_max_calls = 1;
  excluded_exceptions = [];
  state = open_;
  failure_count = 5;
  success_count = 0;
  opened_at = some 100;
  half_open_in_flight = 0;
}

-- The open breaker lets the handler run, and a failing handler runs twice.
open_runs : (handle 200 200 (some policy) good 3 (some breaker) world).world.outer ≡ 1
unfolding handle Fallback.execute
open_runs = refl

runs_twice : (handle 200 200 (some policy) bad 3 none world).world.outer ≡ 2
unfolding handle Fallback.execute Dict.get ℕ_discrete
runs_twice = refl

handle_bypasses_breaker_example :
    let bare = handle 200 200 none good 3 (some breaker) world in
    let r = handle 200 200 (some policy) good 3 (some breaker) world in
    ((bare.breaker ≡ some breaker) × (bare.world ≡ world) × (bare.outcome ≡ raised open_exn))
    × ((r.breaker ≡ some breaker) × (r.world.outer ≡ 1) × (r.outcome ≡ returned 4))
handle_bypasses_breaker_example =
    handle_bypasses_breaker 200 200 good 3 100 policy breaker world 4 refl refl (omega arith)
      (omega arith) refl

fails : (attempt 200 200 bad 3 none world).outcome ≡ raised error
unfolding attempt
fails = refl

abbrev limits : RateLimiterConfig
limits = record { algorithm = token_bucket; rate = pos 1; burst = pos 2; wait_timeout_ms = pos 0 }

abbrev slots : BulkheadConfig
slots = record { max_concurrent = pos 1; max_wait_us = pos 1000000; queue_depth = pos 5 }

abbrev config : ServerResilienceConfig ℕ
config = record {
  rate_limiter = some limits;
  circuit_breaker = none;
  bulkhead = some slots;
  fallback = none;
  enabled = true;
  tenant_isolated = true;
}

abbrev server : ServerResilience ℕ ℕ
unfolding Interceptor.init
server = Interceptor.init ℕ_discrete 0 config none none none none 0

abbrev two : List (Event ℕ)
two = arrives 1 0 ∷ arrives 2 0 ∷ []

permits_bounded_example :
    let y =
      Requests.run ℕ_discrete 0 two
        (start (Interceptor.init ℕ_discrete 0 config none none none none 0)) in
    (b : Bulkhead) × (y.server.bulkhead ≡ some b)
    × (b.holding ≡ permits y.inside)
    × (permits y.inside ≤ 1)
    × (b.free + permits y.inside ≡ 1)
permits_bounded_example = permits_bounded ℕ_discrete 0 config slots none none none 0 two refl

-- Three requests of tenant 1, with one of tenant 2 between them.
abbrev asked : List (ℕ × ℕ)
asked = (1, 0) ∷ (2, 0) ∷ (1, 0) ∷ (1, 0) ∷ []

third_is_refused :
    answers_of ℕ_discrete 1 (limit_all ℕ_discrete 0 asked server) ≡ true ∷ true ∷ false ∷ []
unfolding answers_of limit_all Interceptor.limit Dict.get Dict.set ℕ_discrete Interceptor.init
    RateLimiter.try_acquire RateLimiter.init RateLimiter.try_token_bucket RateLimiter.refill
third_is_refused = refl

limit_all_isolated_example :
    answers_of ℕ_discrete 1 (limit_all ℕ_discrete 0 asked server)
    ≡ alone limits (Dict.get ℕ_discrete 1 server.rate_limiters) (times_of ℕ_discrete 1 asked)
unfolding Interceptor.init
limit_all_isolated_example = limit_all_isolated ℕ_discrete 0 limits 1 asked server refl refl
