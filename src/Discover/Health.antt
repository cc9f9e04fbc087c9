-- ===== src/Discover/Health.antt =====
-- The health of instances: src/aduib_rpc/discover/health/health_status.py, HealthAwareRegistry of
-- src/aduib_rpc/discover/registry/health_aware_registry.py, and the health cache of
-- src/aduib_rpc/client/transports/health_aware.py. Python's text of a number is an argument, as is
-- what a check of an instance gives, `none` where it raises.
pub mod Thresholds
pub mod Listing
use Prim.Native.String.{String, ◌++◌ as text_append}
use aduib_rpc.Prelude.{
  Bool, List, Option, [], false, if◌then◌else◌, leb, negsuc, none, pos, some, text_dec, true, ℕ, ℤ,
  ◌+◌, ◌∷◌,
}
use aduib_rpc.Prelude.Dict
use aduib_rpc.Discover.Instance.{ServiceInstance}

pub data HealthStatus : Type 0 where
  healthy unhealthy degraded unknown : HealthStatus

pub record HealthCheckResult : Type 0 where
  pub status : HealthStatus
  pub checked_at_ms : ℕ

pub record HealthCheckConfig : Type 0 where
  pub healthy_threshold : ℤ
  pub unhealthy_threshold : ℤ

pub record HealthAwareServiceInstance : Type 0 where
  pub instance : ServiceInstance
  pub status : HealthStatus
  pub last_check : Option HealthCheckResult
  pub consecutive_failures : ℕ
  pub consecutive_successes : ℕ

abbrev pub Cache : Type 0
Cache = List (String × HealthAwareServiceInstance)

-- `status == HealthStatus.HEALTHY`.
unfoldable pub is_healthy : HealthStatus → Bool
is_healthy healthy = true
is_healthy unhealthy = false
is_healthy degraded = false
is_healthy unknown = false

-- `HealthAwareServiceInstance(instance=instance)`.
unfoldable pub new_entry : ServiceInstance → HealthAwareServiceInstance
new_entry i = record {
  instance = i;
  status = unknown;
  last_check = none;
  consecutive_failures = 0;
  consecutive_successes = 0;
}

-- `n >= threshold`.
unfoldable pub reached : ℤ → ℕ → Bool
reached (pos t) n = leb t n
reached (negsuc t) n = true

-- The end of `_check_instance` of the registry, and of `_update_health_entry` of the client.
unfoldable pub update :
    HealthCheckConfig → HealthCheckResult → HealthAwareServiceInstance → HealthAwareServiceInstance
unfolding reached is_healthy
update config r e =
    if is_healthy r.status
    then record e {
      last_check = some r;
      consecutive_successes = e.consecutive_successes + 1;
      consecutive_failures = 0;
      status =
          if reached config.healthy_threshold (e.consecutive_successes + 1)
          then healthy
          else e.status;
    }
    else record e {
      last_check = some r;
      consecutive_failures = e.consecutive_failures + 1;
      consecutive_successes = 0;
      status =
          if reached config.unhealthy_threshold (e.consecutive_failures + 1)
          then unhealthy
          else e.status;
    }

entry_or_new : ServiceInstance → Option HealthAwareServiceInstance → HealthAwareServiceInstance
unfolding new_entry
entry_or_new i none = new_entry i
entry_or_new i (some e) = e

-- A result for the instance under a key.
unfoldable pub record_result :
    HealthCheckConfig → String → ServiceInstance → HealthCheckResult → Cache → Cache
unfolding update entry_or_new
record_result config key i r m =
    Dict.set text_dec key (update config r (entry_or_new i (Dict.get text_dec key m))) m

abbrev pub colon : String
colon = ":"

-- The key of HealthAwareRegistry, host and port.
unfoldable pub address : (ℕ → String) → ServiceInstance → String
address show i = text_append i.host (text_append colon (show i.port))

-- Which instances `list_healthy_instances` takes: those never checked, those that are healthy, and
-- those whose status is open but whose last check was good.
last_good : Option HealthCheckResult → Bool
unfolding is_healthy
last_good none = false
last_good (some r) = is_healthy r.status

good_by : HealthStatus → Option HealthCheckResult → Bool
unfolding last_good
good_by healthy last = true
good_by unknown last = last_good last
good_by unhealthy last = false
good_by degraded last = false

good_entry : Option HealthAwareServiceInstance → Bool
unfolding good_by
good_entry none = true
good_entry (some e) = good_by e.status e.last_check

unfoldable pub keep : (ServiceInstance → Bool) → List ServiceInstance → List ServiceInstance
keep p [] = []
keep p (i ∷ is) = if p i then i ∷ keep p is else keep p is

-- The end of both listings: the healthy ones, or all where that is allowed.
unfoldable pub or_all : Bool → List ServiceInstance → List ServiceInstance → List ServiceInstance
or_all allow all [] = if allow then all else []
or_all allow all (i ∷ is) = i ∷ is

module _ (show : ℕ → String) where
  unfoldable pub usable : Cache → ServiceInstance → Bool
  unfolding good_entry address
  usable m i = good_entry (Dict.get text_dec (address show i) m)

  -- `list_healthy_instances` of HealthAwareRegistry, on what its base registry lists.
  unfoldable pub list_healthy_instances : Bool → Cache → List ServiceInstance → List ServiceInstance
  unfolding usable keep or_all
  list_healthy_instances allow m all = or_all allow all (keep (usable m) all)

  -- `_check_instance` of HealthAwareRegistry: an exception of the checker passes.
  unfoldable pub check_instance :
      HealthCheckConfig → ServiceInstance → Option HealthCheckResult → Cache → Option Cache
  unfolding record_result
  check_instance config i none m = none
  check_instance config i (some r) m = some (record_result config (address show i) i r m)

-- `discover_service` of HealthAwareRegistry, on the instances that it lists.
unfoldable pub first_instance : List ServiceInstance → Option ServiceInstance
first_instance [] = none
first_instance (i ∷ is) = some i

-- The client: whether an entry is as old as the cache allows.
stale_check : ℕ → ℕ → Option HealthCheckResult → Bool
stale_check now ttl none = true
stale_check now ttl (some r) = leb (r.checked_at_ms + ttl) now

is_stale : ℕ → ℕ → Option HealthAwareServiceInstance → Bool
unfolding stale_check
is_stale now ttl none = true
is_stale now ttl (some e) = stale_check now ttl e.last_check

cached_status : Option HealthAwareServiceInstance → Bool
unfolding is_healthy
cached_status none = false
cached_status (some e) = is_healthy e.status

-- `_is_cached_healthy`.
unfoldable pub is_cached_healthy : Cache → ServiceInstance → Bool
unfolding cached_status
is_cached_healthy m i = cached_status (Dict.get text_dec i.instance_id m)

-- `_check_instance` of the client: a check that raises counts as unhealthy.
result_of : ℕ → Option HealthCheckResult → HealthCheckResult
result_of now none = record { status = unhealthy; checked_at_ms = now }
result_of now (some r) = r

module _ (config : HealthCheckConfig) (now ttl : ℕ)
    (check : ServiceInstance → Option HealthCheckResult) where
  -- `_refresh_health_cache`: the instances to check are chosen first, then their results arrive.
  unfoldable pub to_check : Cache → List ServiceInstance → List ServiceInstance
  unfolding is_stale
  to_check m is = keep (λ i. is_stale now ttl (Dict.get text_dec i.instance_id m)) is

  unfoldable pub apply_checks : List ServiceInstance → Cache → Cache
  unfolding record_result result_of
  apply_checks [] m = m
  apply_checks (i ∷ is) m =
      apply_checks is (record_result config i.instance_id i (result_of now (check i)) m)

  unfoldable pub refresh_health_cache : List ServiceInstance → Cache → Cache
  unfolding to_check apply_checks
  refresh_health_cache is m = apply_checks (to_check m is) m

  -- `_list_healthy_instances` of a client with a checker and no health registry.
  unfoldable pub list_checked : Bool → List ServiceInstance → Cache → Cache × List ServiceInstance
  unfolding refresh_health_cache is_cached_healthy keep or_all
  list_checked allow is m =
      let m' = refresh_health_cache is m in (m', or_all allow is (keep (is_cached_healthy m') is))
