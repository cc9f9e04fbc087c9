-- ===== src/Tests/Qos.antt =====
-- src/aduib_rpc/server/qos/handler.py: three requests of one key on the cache that is the default.
use native.Mathlib.Decide.{ℕ_discrete}
use aduib_rpc.Prelude.{List, Option, [], pos, refl, some, ℕ, ◌∷◌, ◌≡◌, ◌≤◌}
use aduib_rpc.Prelude.Dict
use aduib_rpc.Resilience.CircuitBreaker.{Outcome, returned}
use aduib_rpc.Resilience.Cache.{Value, expired, object}
use aduib_rpc.Resilience.IdempotencyCache
use aduib_rpc.Resilience.IdempotencyCache.{IdempotencyCache}
use aduib_rpc.Server.Qos.{CacheOps, in_memory, Event, arrives, goes_on, ended, is_taken, put}
use aduib_rpc.Server.Qos
use aduib_rpc.Server.Qos.Locks.{count_inside, as_number}
use aduib_rpc.Server.Qos.Flight.{run_exclusive}

abbrev ops : CacheOps ℕ (Value ℕ) (IdempotencyCache ℕ ℕ)
unfolding in_memory
ops = in_memory ℕ_discrete 3600000000

-- A cache of one entry.
abbrev cache : IdempotencyCache ℕ ℕ
unfolding IdempotencyCache.init
cache = IdempotencyCache.init (pos 1) (pos 3600)

abbrev gives : ℕ → Outcome (Option (Value ℕ))
gives n = returned (some (object n))

-- Two requests read the empty cache, the first computes 5 while the second waits, and the second
-- would compute 6.
abbrev schedule : List (Event ℕ (Value ℕ))
schedule =
    arrives 1
    ∷ arrives 1
    ∷ goes_on 7 0 (gives 5)
    ∷ goes_on 7 1 (gives 6)
    ∷ goes_on 7 0 (gives 5)
    ∷ goes_on 7 1 (gives 6)
    ∷ goes_on 7 0 (gives 5)
    ∷ goes_on 7 0 (gives 5)
    ∷ goes_on 7 1 (gives 6)
    ∷ goes_on 7 1 (gives 6)
    ∷ []

second_is_served :
    (Qos.run ℕ_discrete ops schedule (Qos.new_handler ℕ_discrete ops cache)).requests
    ≡ (1, ended (returned (some (object 5)))) ∷ (1, ended (returned (some (object 5)))) ∷ []
unfolding in_memory Qos.run Qos.new_handler is_taken put Dict.get Dict.set Dict.pop
    IdempotencyCache.get IdempotencyCache.set ℕ_discrete cache expired
second_is_served = refl

run_exclusive_example :
    let s = Qos.run ℕ_discrete ops schedule (Qos.new_handler ℕ_discrete ops cache) in
    (count_inside ℕ_discrete 1 s.requests ≤ 1)
    × (count_inside ℕ_discrete 1 s.requests ≡ as_number (is_taken ℕ_discrete ops 1 s.locks))
run_exclusive_example = run_exclusive ℕ_discrete ops cache schedule 1
