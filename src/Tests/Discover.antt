-- ===== src/Tests/Discover.antt =====
-- src/aduib_rpc/discover and src/aduib_rpc/client/transports/health_aware.py on two instances, with
-- a hash of texts that adds up their characters.
use Prim.Native.Char.{code}
use Prim.Native.String.{String}
use native.Mathlib.Decide.{ℕ_discrete}
use aduib_rpc.Prelude.{
  List, [], none, pos, refl, replicate, some, suc, text_dec, zero, ℕ, ◌+◌, ◌∷◌, ◌≡◌, ◌≢◌, ◌⊎◌,
  eq→same_text,
}
use aduib_rpc.Prelude.Dict
use aduib_rpc.Discover.Instance.{ServiceInstance}
use aduib_rpc.Discover.LoadBalance.{new_balancer}
use aduib_rpc.Discover.LoadBalance.Rotation.{selections, selections_constant, first_weighted}
use aduib_rpc.Discover.Ring.{selected, select_instance, init_hash_ring, sort, index_for}
use aduib_rpc.Discover.Ring.Nodes.{nearest_node, all_nodes}
use aduib_rpc.Discover.Ring.Disruption.{as_selection, select_nearest, minimal_disruption}
use aduib_rpc.Discover.Registry.{list_instances}
use aduib_rpc.Discover.Registry.History.{
  Request, register, unregister, apply_all, registered, list_instances-registered,
}
use aduib_rpc.Discover.Health.{
  is_healthy, reached, HealthCheckResult, HealthCheckConfig, healthy, unhealthy,
}
use aduib_rpc.Discover.Health.Thresholds.{
  successes, failures, judged, after_results, after_results-judged,
}

md5 : String → ℕ
md5 String.[] = 0
md5 (String.◌∷◌ c s) = code c + md5 s

show : ℕ → String
show zero = "0"
show (suc n) = "1"

draw : ℕ → ℕ
draw n = 0

abbrev name : String
name = "svc"

abbrev a : ServiceInstance
a = record {
  instance_id = "a";
  service_name = "svc";
  host = "h";
  port = 1;
  weight = 2;
  registered_at_ms = none;
  ttl_seconds = 30;
}

abbrev b : ServiceInstance
b = record {
  instance_id = "b";
  service_name = "svc";
  host = "h";
  port = 2;
  weight = 1;
  registered_at_ms = none;
  ttl_seconds = 30;
}

selections_constant_example :
    selections 3 (a ∷ b ∷ []) new_balancer ≡ replicate 3 (first_weighted (a ∷ b ∷ []))
selections_constant_example = selections_constant 3 (a ∷ b ∷ []) new_balancer

always_first : first_weighted (a ∷ b ∷ []) ≡ some a
unfolding first_weighted
always_first = refl

-- The keys of `a` are 180 and 181, those of `b` 181 and 182; "z" is 122.
wraps : sort (181 ∷ 180 ∷ 182 ∷ []) ≡ 180 ∷ 181 ∷ 182 ∷ []
unfolding sort
wraps = refl

abbrev key : String
key = "zz"

select_nearest_example :
    select_instance md5 show 2 draw (some key) (a ∷ b ∷ [])
    ≡ as_selection (nearest_node (md5 key) (all_nodes md5 show 2 (a ∷ b ∷ [])))
select_nearest_example = select_nearest md5 show draw key 2 (a ∷ b ∷ [])

selects_first : select_instance md5 show 2 draw (some key) (a ∷ b ∷ []) ≡ selected a
unfolding select_instance init_hash_ring index_for Dict.get Dict.set ℕ_discrete md5 show
selects_first = refl

minimal_disruption_example :
    let all = select_instance md5 show 2 draw (some key) (a ∷ b ∷ []) in
    (all ≡ selected b) ⊎ (all ≡ select_instance md5 show 2 draw (some key) (a ∷ []))
minimal_disruption_example = minimal_disruption md5 show draw key 2 b (a ∷ []) []

abbrev both : List Request
both = register a ∷ register b ∷ []

list_instances-registered_example :
    list_instances name (apply_all both []) ≡ registered name both []
list_instances-registered_example = list_instances-registered name both

-- Taking `a` away takes `b` away too.
takes_all : registered name (register a ∷ register b ∷ unregister a ∷ []) [] ≡ []
unfolding registered text_dec
takes_all = refl

abbrev config : HealthCheckConfig
config = record { healthy_threshold = pos 2; unhealthy_threshold = pos 3 }

abbrev good : HealthCheckResult
good = record { status = healthy; checked_at_ms = 0 }

abbrev bad : HealthCheckResult
bad = record { status = unhealthy; checked_at_ms = 0 }

after_results-judged_example :
    let e = after_results config a (bad ∷ good ∷ good ∷ []) in
    (e.status ≡ judged config (bad ∷ good ∷ good ∷ []))
    × (e.consecutive_successes ≡ successes (bad ∷ good ∷ good ∷ []))
    × (e.consecutive_failures ≡ failures (bad ∷ good ∷ good ∷ []))
after_results-judged_example = after_results-judged config a (bad ∷ good ∷ good ∷ [])

-- One failure after two successes leaves it healthy.
stays_healthy : judged config (bad ∷ good ∷ good ∷ []) ≡ healthy
unfolding judged is_healthy reached
stays_healthy = refl

ids_differ : b.instance_id ≢ a.instance_id
ids_differ e = let q = eq→same_text b.instance_id a.instance_id e in cc
