-- ===== src/Tests/Fallback.antt =====
-- src/aduib_rpc/resilience/fallback.py on concrete handlers, over a state that plays no part.
use aduib_rpc.Prelude.{ℕ, [], none, refl, true, ◌+◌, ◌≡◌}
use native.Mathlib.Decide.{ℕ_discrete}
use aduib_rpc.Prelude.Dict
use aduib_rpc.Exceptions.{Exn}
use aduib_rpc.Resilience.Fallback
use aduib_rpc.Resilience.Fallback.{
  execute, FallbackPolicy, World, static_value, cached_value, handler_then, should_fallback,
}
use aduib_rpc.Resilience.CircuitBreaker.{Outcome, raised, returned}

-- First what the last success gave, then 7.
abbrev policy : FallbackPolicy ℕ ℕ ℕ
policy = record {
  handlers = handler_then (cached_value 0) (handler_then (static_value 7) Fallback.no_handlers);
  fallback_on = none;
  propagate_original_error = true;
  include_context = true;
}

abbrev no_policy : FallbackPolicy ℕ ℕ ℕ
no_policy = record policy { handlers = handler_then (cached_value 0) Fallback.no_handlers }

abbrev error : Exn
error = record { mro = []; code = 0 }

abbrev world : World ℕ ℕ
world = record { outer = 0; caches = [] }

abbrev good : ℕ → ℕ → ℕ × Outcome ℕ
good c s = (s, returned (c + 1))

abbrev bad : ℕ → ℕ → ℕ × Outcome ℕ
bad c s = (s, raised error)

falls : should_fallback policy error ≡ true
unfolding should_fallback
falls = refl

static_answers : (execute policy bad 3 world).1 ≡ returned 7
unfolding execute Fallback.record_success Dict.get ℕ_discrete
static_answers = refl

nothing_cached : (execute no_policy bad 3 world).1 ≡ raised error
unfolding execute Dict.get ℕ_discrete
nothing_cached = refl
