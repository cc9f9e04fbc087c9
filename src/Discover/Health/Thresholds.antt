-- ===== src/Discover/Health/Thresholds.antt =====
-- What makes an instance healthy or unhealthy: the thresholds of
-- src/aduib_rpc/discover/registry/health_aware_registry.py and
-- src/aduib_rpc/client/transports/health_aware.py.
use aduib_rpc.Prelude.{List, [], if◌then◌else◌, ℕ, ◌+◌, ◌∷◌, ◌≡◌, arith, refl}
use aduib_rpc.Discover.Instance.{ServiceInstance}
use aduib_rpc.Discover.Health.{
  HealthStatus, healthy, unhealthy, unknown, HealthCheckResult, HealthCheckConfig,
  HealthAwareServiceInstance, update, reached, is_healthy, new_entry,
}

-- Results, the latest first: how many of one kind stand at the head.
unfoldable pub successes : List HealthCheckResult → ℕ
successes [] = 0
successes (r ∷ rs) = let n = successes rs in if is_healthy r.status then n + 1 else 0

unfoldable pub failures : List HealthCheckResult → ℕ
failures [] = 0
failures (r ∷ rs) = let n = failures rs in if is_healthy r.status then 0 else n + 1

-- The status after some results, by the last run of equal ones that was long enough.
unfoldable pub judged : HealthCheckConfig → List HealthCheckResult → HealthStatus
unfolding successes failures
judged config [] = unknown
judged config (r ∷ rs) =
    let before = judged config rs in
    if is_healthy r.status
    then (if reached config.healthy_threshold (successes (r ∷ rs)) then healthy else before)
    else (if reached config.unhealthy_threshold (failures (r ∷ rs)) then unhealthy else before)

-- The entry of an instance after some results.
unfoldable pub after_results :
    HealthCheckConfig → ServiceInstance → List HealthCheckResult → HealthAwareServiceInstance
unfolding update
after_results config i [] = new_entry i
after_results config i (r ∷ rs) = update config r (after_results config i rs)

after_results_step :
    (config : HealthCheckConfig) (r : HealthCheckResult) (rs : List HealthCheckResult)
    (e : HealthAwareServiceInstance)
    → e.status ≡ judged config rs
    → e.consecutive_successes ≡ successes rs
    → e.consecutive_failures ≡ failures rs
    → let e' = update config r e in
      (e'.status ≡ judged config (r ∷ rs))
      × (e'.consecutive_successes ≡ successes (r ∷ rs))
      × (e'.consecutive_failures ≡ failures (r ∷ rs))
unfolding update judged successes failures
after_results_step config r rs e p q s = ground arith

-- The entry of an instance that was new counts the results of one kind since the last of the other
-- kind, and its status is that of the latest run of results, if any, that reached the threshold of
-- its kind, and unknown before.
pub after_results-judged :
    (config : HealthCheckConfig) (i : ServiceInstance) (rs : List HealthCheckResult)
    → let e = after_results config i rs in
      (e.status ≡ judged config rs)
      × (e.consecutive_successes ≡ successes rs)
      × (e.consecutive_failures ≡ failures rs)
unfolding after_results new_entry judged successes failures
after_results-judged config i [] = (refl, refl, refl)
after_results-judged config i (r ∷ rs) =
    let (p, q, s) = after_results-judged config i rs in
    after_results_step config r rs (after_results config i rs) p q s
