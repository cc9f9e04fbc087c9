-- ===== src/Discover/Registry.antt =====
-- InMemoryServiceRegistry of src/aduib_rpc/discover/registry/in_memory.py, with the balancers that
-- LoadBalancerFactory of src/aduib_rpc/discover/load_balance makes for it.
pub mod History
use Prim.Native.String.{String}
use aduib_rpc.Prelude.{List, Option, [], none, some, text_dec, ℕ, ◌++◌, ◌∷◌}
use aduib_rpc.Prelude.Dict
use aduib_rpc.Discover.Instance.{ServiceInstance}
use aduib_rpc.Discover.LoadBalance.{select_weighted, select_random, new_balancer}
use aduib_rpc.Discover.Ring
use aduib_rpc.Discover.Ring.{Selection, nothing, selected}

-- `_services`.
abbrev pub Services : Type 0
Services = List (String × List ServiceInstance)

-- `_services.get(name) or []`.
instances_or_empty : Option (List ServiceInstance) → List ServiceInstance
instances_or_empty none = []
instances_or_empty (some is) = is

-- `list_instances`.
unfoldable pub list_instances : String → Services → List ServiceInstance
unfolding instances_or_empty
list_instances name m = instances_or_empty (Dict.get text_dec name m)

-- `register_service`: a list for a new name, and the instance at its end.
unfoldable pub register_service : ServiceInstance → Services → Services
unfolding list_instances
register_service i m =
    Dict.set text_dec i.service_name (list_instances i.service_name m ++ i ∷ []) m

-- `unregister_service`: `none` is the TypeError of the loop over None.
unregister_found : Option (List ServiceInstance) → ServiceInstance → Services → Option Services
unregister_found none i m = none
unregister_found (some is) i m = some (Dict.pop text_dec i.service_name m)

unfoldable pub unregister_service : ServiceInstance → Services → Option Services
unfolding unregister_found
unregister_service i m = unregister_found (Dict.get text_dec i.service_name m) i m

pub data LoadBalancePolicy : Type 0 where
  random_choice weighted_round_robin consistent_hashing : LoadBalancePolicy

pub option_selection : Option ServiceInstance → Selection
option_selection none = nothing
option_selection (some i) = selected i

module _ (md5 : String → ℕ) (show : ℕ → String) (draw : ℕ → ℕ) where
  -- `get_load_balancer(policy).select_instance(instances)`, a new balancer with 100 virtual nodes.
  unfoldable pub balance : LoadBalancePolicy → List ServiceInstance → Selection
  unfolding option_selection
  balance random_choice is = option_selection (select_random draw is)
  balance weighted_round_robin is = option_selection (select_weighted is new_balancer).1
  balance consistent_hashing is = Ring.select_instance md5 show 100 draw none is

  -- `discover_service`.
  unfoldable pub discover_service : LoadBalancePolicy → String → Services → Selection
  unfolding balance
  discover_service policy name m = balance policy (list_instances name m)
