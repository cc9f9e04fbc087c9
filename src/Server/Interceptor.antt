-- ===== src/Server/Interceptor.antt =====
-- ServerResilienceInterceptor of src/aduib_rpc/server/interceptors/resilience.py: its guards, and
-- the two ends of `intercept` around a request. Tenants are a type K with a decision, `default`
-- being the key "default"; an explicit limiter is a RateLimiter. The clock's reading is an
-- argument. No other request comes between the two guards of one request.
pub mod Requests
pub mod Tenants
use aduib_rpc.Prelude.{Bool, List, Option, [], false, if◌then◌else◌, none, some, true, ℕ, ◌∷◌}
use mathlib.Core.Option as Opt
use aduib_rpc.Prelude.Dict
use aduib_rpc.Resilience.Bulkhead
use aduib_rpc.Resilience.Bulkhead.{Bulkhead, BulkheadConfig}
use aduib_rpc.Resilience.CircuitBreaker
use aduib_rpc.Resilience.CircuitBreaker.{CircuitBreaker, CircuitBreakerConfig}
use aduib_rpc.Resilience.RateLimiter
use aduib_rpc.Resilience.RateLimiter.{RateLimiter, RateLimiterConfig}

-- ServerResilienceConfig, over the type F of fallback policies.
pub record ServerResilienceConfig (F : Type 0) : Type 0 where
  pub rate_limiter : Option RateLimiterConfig
  pub circuit_breaker : Option CircuitBreakerConfig
  pub bulkhead : Option BulkheadConfig
  pub fallback : Option F
  pub enabled : Bool
  pub tenant_isolated : Bool

-- The guards that a constructor call names, and the interceptor with its dict of limiters.
pub record Explicit : Type 0 where
  pub rate_limiter : Bool
  pub circuit_breaker : Bool
  pub bulkhead : Bool
  pub fallback_executor : Bool

pub record ServerResilience (K F : Type 0) : Type 0 where
  pub config : ServerResilienceConfig F
  pub explicit : Explicit
  pub rate_limiters : List (K × RateLimiter)
  pub circuit_breaker : Option CircuitBreaker
  pub bulkhead : Option Bulkhead
  pub fallback_executor : Option F

-- `isinstance` of a guard that may be missing.
is_some : {A : Type 0} → Option A → Bool
is_some none = false
is_some (some a) = true

-- What the start of `intercept` does with a request: no guard, an abort with an error code, or
-- its wrapped handler, with or without a permit of the bulkhead.
pub data Entry : Type 0 where
  unguarded : Entry
  aborted : ℕ → Entry
  entered : Bool → Entry

module _ {K : Type 0} (dec : Discrete K) (default : K) where
  -- The limiters that `refresh_from_config` makes.
  fresh_limiters : ℕ → Option RateLimiterConfig → List (K × RateLimiter)
  fresh_limiters now none = []
  fresh_limiters now (some c) = (default, RateLimiter.init c now) ∷ []

  -- The dict after an explicit limiter.
  explicit_limiters : Option RateLimiter → List (K × RateLimiter)
  explicit_limiters none = []
  explicit_limiters (some l) = (default, l) ∷ []

  -- A limiter for a tenant that has none.
  ensure :
      K
      → ℕ
      → RateLimiterConfig
      → Option RateLimiter
      → List (K × RateLimiter)
      → List (K × RateLimiter)
  ensure tenant now c none ls = Dict.set dec tenant (RateLimiter.init c now) ls
  ensure tenant now c (some l) ls = ls

  -- The key that `_get_rate_limiter` reads.
  limiter_key : Bool → K → K
  limiter_key isolated tenant = if isolated then tenant else default

  -- One token of the limiter found, which is written back; no limiter lets a request pass.
  take_one : K → ℕ → Option RateLimiter → List (K × RateLimiter) → List (K × RateLimiter) × Bool
  take_one key now none ls = (ls, true)
  take_one key now (some l) ls = (
    Dict.set dec key (RateLimiter.try_acquire 1 now l).limiter ls,
    (RateLimiter.try_acquire 1 now l).acquired,
  )

module _ {K F : Type 0} (dec : Discrete K) (default : K) where
  -- `refresh_from_config`.
  unfoldable pub refresh_from_config : ℕ → ServerResilience K F → ServerResilience K F
  unfolding fresh_limiters
  refresh_from_config now s = record s {
    rate_limiters =
        if s.explicit.rate_limiter
        then s.rate_limiters
        else fresh_limiters dec default now s.config.rate_limiter;
    circuit_breaker =
        if s.explicit.circuit_breaker
        then s.circuit_breaker
        else Opt.map CircuitBreaker.init s.config.circuit_breaker;
    bulkhead = if s.explicit.bulkhead then s.bulkhead else Opt.map Bulkhead.init s.config.bulkhead;
    fallback_executor =
        if s.explicit.fallback_executor then s.fallback_executor else s.config.fallback;
  }

  -- `__init__`.
  unfoldable pub init :
      ServerResilienceConfig F
      → Option RateLimiter
      → Option CircuitBreaker
      → Option Bulkhead
      → Option F
      → ℕ
      → ServerResilience K F
  unfolding refresh_from_config is_some explicit_limiters
  init config l b bulkhead f now = refresh_from_config now (record {
    config = config;
    explicit = record {
      rate_limiter = is_some l;
      circuit_breaker = is_some b;
      bulkhead = is_some bulkhead;
      fallback_executor = is_some f;
    };
    rate_limiters = explicit_limiters dec default l;
    circuit_breaker = b;
    bulkhead = bulkhead;
    fallback_executor = f;
  })

  -- `_get_rate_limiter`: the dict that it leaves.
  limiters_for : K → ℕ → RateLimiterConfig → ServerResilience K F → List (K × RateLimiter)
  unfolding ensure
  limiters_for tenant now c s =
      if s.config.tenant_isolated
      then ensure dec default tenant now c (Dict.get dec tenant s.rate_limiters) s.rate_limiters
      else s.rate_limiters

  -- The first guard of `intercept`.
  limit_by : Option RateLimiterConfig → K → ℕ → ServerResilience K F → ServerResilience K F × Bool
  limit_by none tenant now s = (s, true)
  limit_by (some c) tenant now s =
      let key = limiter_key dec default s.config.tenant_isolated tenant in
      let ls = limiters_for tenant now c s in
      let (ls', allowed) = take_one dec default key now (Dict.get dec key ls) ls in
      (record s { rate_limiters = ls' }, allowed)

  unfoldable pub limit : K → ℕ → ServerResilience K F → ServerResilience K F × Bool
  unfolding limit_by take_one limiter_key limiters_for
  limit tenant now s = limit_by s.config.rate_limiter tenant now s

  -- The second guard of `intercept`.
  permit_by : Option Bulkhead → ServerResilience K F → ServerResilience K F × Entry
  permit_by none s = (s, entered false)
  permit_by (some b) s =
      let (b', acquired) = Bulkhead.try_acquire b in
      (record s { bulkhead = some b' }, if acquired then entered true else aborted 5021)

  unfoldable pub permit : ServerResilience K F → ServerResilience K F × Entry
  unfolding permit_by
  permit s = permit_by s.bulkhead s

  past_limit : ServerResilience K F × Bool → ServerResilience K F × Entry
  unfolding permit
  past_limit (s, true) = permit s
  past_limit (s, false) = (s, aborted 5020)

  -- `intercept` before its `yield`.
  unfoldable pub enter : K → ℕ → ServerResilience K F → ServerResilience K F × Entry
  unfolding limit past_limit
  enter tenant now s = if s.config.enabled then past_limit (limit tenant now s) else (s, unguarded)

-- `intercept` after its `yield`, by what its start gave.
leave_bulkhead : Option Bulkhead → Option Bulkhead
leave_bulkhead none = none
leave_bulkhead (some b) = some (Bulkhead.release b)

unfoldable pub leave : {K F : Type 0} → Entry → ServerResilience K F → ServerResilience K F
unfolding leave_bulkhead
leave (entered true) s = record s { bulkhead = leave_bulkhead s.bulkhead }
leave (entered false) s = s
leave (aborted code) s = s
leave unguarded s = s
