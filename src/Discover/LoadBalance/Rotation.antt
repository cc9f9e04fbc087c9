-- ===== src/Discover/LoadBalance/Rotation.antt =====
-- What WeightedRoundRobinLB and RandomLB of
-- src/aduib_rpc/discover/load_balance/load_balance.py select.
use aduib_rpc.Prelude.{
  List, Option, [], ap, arith, if◌then◌else◌, ltb, none, refl, replicate, some, suc, zero, ℕ, ◌++◌,
  ◌∷◌, ◌≡◌,
}
use aduib_rpc.Discover.Instance.{ServiceInstance}
use aduib_rpc.Discover.LoadBalance.{WeightedRoundRobin, weighted_pool, first, select_weighted}

-- The first instance with a weight.
unfoldable pub first_weighted : List ServiceInstance → Option ServiceInstance
first_weighted [] = none
first_weighted (i ∷ is) = if ltb 0 i.weight then some i else first_weighted is

first-replicate :
    (n : ℕ) (i : ServiceInstance) (is : List ServiceInstance)
    → first (replicate n i ++ is) ≡ (if ltb 0 n then some i else first is)
unfolding first
first-replicate zero i is = refl
first-replicate (suc n) i is = ground arith

pub first-weighted_pool : (is : List ServiceInstance) → first (weighted_pool is) ≡ first_weighted is
unfolding weighted_pool first_weighted first
first-weighted_pool [] = refl
first-weighted_pool (i ∷ is) =
    ground (arith, first-replicate i.weight i (weighted_pool is), first-weighted_pool is)

-- The selections of one balancer, one after another, among the same instances.
unfoldable pub selections :
    ℕ → List ServiceInstance → WeightedRoundRobin → List (Option ServiceInstance)
selections zero is b = []
selections (suc n) is b = let (b', o) = select_weighted is b in o ∷ selections n is b'

-- The weighted balancer does not go round: every selection among the same instances is the first
-- instance whose weight is not zero, whatever was selected before.
pub selections_constant :
    (n : ℕ) (is : List ServiceInstance) (b : WeightedRoundRobin)
    → selections n is b ≡ replicate n (first_weighted is)
unfolding selections select_weighted
selections_constant zero is b = refl
selections_constant (suc n) is b =
    rw (first-weighted_pool is) (ap (λ l. first_weighted is ∷ l) (selections_constant n is _))
