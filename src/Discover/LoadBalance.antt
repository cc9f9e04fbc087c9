-- ===== src/Discover/LoadBalance.antt =====
-- WeightedRoundRobinLB and RandomLB of src/aduib_rpc/discover/load_balance/load_balance.py.
-- `random.choice` draws an index by an argument.
pub mod Rotation
use aduib_rpc.Prelude.{List, Option, [], get_elem?, length, none, replicate, some, ℕ, ◌++◌, ◌∷◌}
use aduib_rpc.Discover.Instance.{ServiceInstance}

-- `list(chain.from_iterable([inst] * inst.weight for inst in instances))`.
unfoldable pub weighted_pool : List ServiceInstance → List ServiceInstance
weighted_pool [] = []
weighted_pool (i ∷ is) = replicate i.weight i ++ weighted_pool is

-- The object's fields: the pool, and how far its cycle has gone.
pub record WeightedRoundRobin : Type 0 where
  pub pool : Option (List ServiceInstance)
  pub position : ℕ

abbrev pub new_balancer : WeightedRoundRobin
new_balancer = record { pool = none; position = 0 }

unfoldable pub first : {A : Type 0} → List A → Option A
first [] = none
first (x ∷ xs) = some x

-- `WeightedRoundRobinLB.select_instance`: a new cycle, and its first element.
unfoldable pub select_weighted :
    List ServiceInstance → WeightedRoundRobin → WeightedRoundRobin × Option ServiceInstance
unfolding weighted_pool first
select_weighted is b =
    (record { pool = some (weighted_pool is); position = 1 }, first (weighted_pool is))

-- `RandomLB.select_instance`, and `random.choice` where there is something to choose.
unfoldable pub choice : (ℕ → ℕ) → List ServiceInstance → Option ServiceInstance
choice draw is = get_elem? is (draw (length is))

unfoldable pub select_random : (ℕ → ℕ) → List ServiceInstance → Option ServiceInstance
unfolding choice
select_random draw [] = none
select_random draw (i ∷ is) = choice draw (i ∷ is)
