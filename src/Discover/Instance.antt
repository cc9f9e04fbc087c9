-- ===== src/Discover/Instance.antt =====
-- ServiceInstance of src/aduib_rpc/discover/entities/service_instance.py: the fields that the
-- registries, the balancers and the health checks read.
use Prim.Native.String.{String}
use aduib_rpc.Prelude.{
  Bool, Option, false, ltb, negsuc, none, not, pos, some, true, ℕ, ℤ, ◌*◌, ◌+◌, ◌||◌,
}

pub record ServiceInstance : Type 0 where
  pub instance_id : String
  pub service_name : String
  pub host : String
  pub port : ℕ
  pub weight : ℕ
  pub registered_at_ms : Option ℕ
  pub ttl_seconds : ℕ

-- The validators of `port` and `weight`: whether a value is taken.
unfoldable pub validate_port : ℤ → Bool
validate_port (pos n) = not (ltb n 1 || ltb 65535 n)
validate_port (negsuc n) = false

unfoldable pub validate_weight : ℤ → Bool
validate_weight (pos n) = true
validate_weight (negsuc n) = false

-- `is_expired`, with its multiplier 1.5 in halves.
unfoldable pub is_expired : ℕ → ServiceInstance → Bool
is_expired now i = elim i.registered_at_ms [
  | none ↦ false
  | some at ↦ ltb (2 * at + i.ttl_seconds * 1000 * 3) (2 * now)
]
