-- ===== src/Tests/Cache.antt =====
-- src/aduib_rpc/resilience/cache.py on concrete caches, with numbers for keys.
use native.Mathlib.Decide.{ℕ_discrete}
use aduib_rpc.Prelude.{ℕ, [], arith, length, none, pos, refl, some, ◌+◌, ◌∷◌, ◌≡◌}
use aduib_rpc.Prelude.Dict
use aduib_rpc.Resilience.Cache.{Store, none_value, object, int}
use aduib_rpc.Resilience.IdempotencyCache
use aduib_rpc.Resilience.IdempotencyCache.{IdempotencyCache}
use aduib_rpc.Resilience.IdempotencyCache.Size.{
  IsBounded, incr_overflows, run_ops, reads, writes, deletes, run_ops-IsBounded,
}

abbrev dec : Discrete ℕ
unfolding ℕ_discrete
dec = ℕ_discrete

-- Key 1 expires at 50, key 2 never.
abbrev store : Store ℕ ℕ
store =
    (1, record { value = object 10; expires_at = some 50 })
    ∷ (2, record { value = int (pos 5); expires_at = none })
    ∷ []

store-IsDict : Dict.IsDict dec store
unfolding Dict.get ℕ_discrete
store-IsDict = (refl, (refl, tt))

abbrev full : IdempotencyCache ℕ ℕ
full = record { entries = store; max_size = 2; ttl_us = 1000000 }

full-IsBounded : IsBounded dec full
full-IsBounded = record { room = omega arith; distinct = store-IsDict; fits = omega arith }

third_key_evicts :
    (IdempotencyCache.set dec 3 (object 7) none 10 full).entries
    ≡ (2, record { value = int (pos 5); expires_at = none })
      ∷ (3, record { value = object 7; expires_at = some 1000010 })
      ∷ []
unfolding IdempotencyCache.set Dict.get Dict.set ℕ_discrete
third_key_evicts = refl

run_ops-IsBounded_example :
    IsBounded dec
      (run_ops dec (reads 2 none_value 10 ∷ writes 3 (object 7) none 20 ∷ deletes 2 ∷ []) full)
run_ops-IsBounded_example =
    run_ops-IsBounded dec (reads 2 none_value 10 ∷ writes 3 (object 7) none 20 ∷ deletes 2 ∷ [])
      full full-IsBounded

incr_overflows_example :
    length (IdempotencyCache.incr dec 3 (pos 1) none 10 full).0.entries
    ≡ (IdempotencyCache.incr dec 3 (pos 1) none 10 full).0.max_size + 1
unfolding Dict.get ℕ_discrete
incr_overflows_example = incr_overflows dec 3 (pos 1) none 10 full refl refl
