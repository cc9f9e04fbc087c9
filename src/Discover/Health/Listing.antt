-- ===== src/Discover/Health/Listing.antt =====
-- Which instances are listed: `list_healthy_instances` of
-- src/aduib_rpc/discover/registry/health_aware_registry.py and `_list_healthy_instances` of
-- src/aduib_rpc/client/transports/health_aware.py.
use Prim.Native.String.{String}
use mathlib.Core.Path.{subst}
use aduib_rpc.Prelude.{
  All, Bool, Bool-cases, List, [], ap, arith, false, if◌then◌else◌, inl, inr, none, pos, refl, some,
  suc, text_dec, true, ℕ, ◌∷◌, ◌≡◌, ◌≢◌, ◌⊎◌, Option, ◌∙◌, leb, sym,
}
use aduib_rpc.Prelude.Dict
use aduib_rpc.Discover.Instance.{ServiceInstance}
use aduib_rpc.Discover.Health.{
  HealthCheckResult, HealthCheckConfig, update, new_entry, Cache, keep, or_all, usable,
  list_healthy_instances, record_result, entry_or_new, cached_status, list_checked, is_healthy,
  apply_checks, result_of, reached, unhealthy, to_check, is_stale, unknown, refresh_health_cache,
  is_cached_healthy, healthy,
}

keep-All :
    (p : ServiceInstance → Bool) (is : List ServiceInstance) → All (λ i. p i ≡ true) (keep p is)
unfolding keep
keep-All p [] = tt
keep-All p (i ∷ is) = elim (Bool-cases (p i)) [
  | inl e ↦ rw e (e, keep-All p is)
  | inr e ↦ rw e (keep-All p is)
]

keep-empty :
    (p : ServiceInstance → Bool) (is : List ServiceInstance)
    → keep p is ≡ []
    → All (λ i. p i ≡ false) is
unfolding keep
keep-empty p [] e = tt
keep-empty p (i ∷ is) e = elim (Bool-cases (p i)) [
  | inl h ↦ absurd (ground arith)
  | inr h ↦ (h, keep-empty p is (ground arith))
]

keep_all :
    (p : ServiceInstance → Bool) (is : List ServiceInstance)
    → ((i : ServiceInstance) → p i ≡ true)
    → keep p is ≡ is
unfolding keep
keep_all p [] h = refl
keep_all p (i ∷ is) h = rw (h i) (ap (λ l. i ∷ l) (keep_all p is h))

keep_none :
    (p : ServiceInstance → Bool) (is : List ServiceInstance)
    → ((i : ServiceInstance) → p i ≡ false)
    → keep p is ≡ []
unfolding keep
keep_none p [] h = refl
keep_none p (i ∷ is) h = rw (h i) (keep_none p is h)

abbrev pub Listed :
    Bool → (ServiceInstance → Bool) → List ServiceInstance → List ServiceInstance → Type 0
Listed allow p all l =
    ((l ≢ []) × All (λ i. p i ≡ true) l)
    ⊎ (All (λ i. p i ≡ false) all × (l ≡ (if allow then all else [])))

or_all-Listed :
    (allow : Bool) (p : ServiceInstance → Bool) (all kept : List ServiceInstance)
    → keep p all ≡ kept
    → Listed allow p all (or_all allow all kept)
unfolding or_all
or_all-Listed allow p all [] e = inr (keep-empty p all e, refl)
or_all-Listed allow p all (i ∷ is) e =
    inl (λ q. cc, subst (λ l. All (λ j. p j ≡ true) l) e (keep-All p all))

-- The health-aware registry lists usable instances only, at least one, unless no instance is
-- usable: then it lists all of them or none, as it is allowed to.
pub list_healthy_instances-Listed :
    (show : ℕ → String) (allow : Bool) (m : Cache) (all : List ServiceInstance)
    → Listed allow (usable show m) all (list_healthy_instances show allow m all)
unfolding list_healthy_instances
list_healthy_instances-Listed show allow m all =
    or_all-Listed allow (usable show m) all (keep (usable show m) all) refl

-- No two instances share an identifier.
abbrev pub Distinct : List ServiceInstance → Type 0
Distinct [] = Unit
Distinct (i ∷ is) = All (λ j. j.instance_id ≢ i.instance_id) is × Distinct is

abbrev NoneHealthy : Cache → Type 0
NoneHealthy m = (key : String) → cached_status (Dict.get text_dec key m) ≡ false

Absent : Cache → List ServiceInstance → Type 0
Absent m is = All (λ i. Dict.get text_dec i.instance_id m ≡ none) is

too_few : (t : ℕ) → is_healthy (if leb (suc (suc t)) 1 then healthy else unknown) ≡ false
unfolding is_healthy
too_few t = ground arith

failed : (b : Bool) → is_healthy (if b then unhealthy else unknown) ≡ false
unfolding is_healthy
failed true = refl
failed false = refl

module _ (config : HealthCheckConfig) (t : ℕ)
    (high : config.healthy_threshold ≡ pos (suc (suc t))) where
  update_new :
      (i : ServiceInstance) (r : HealthCheckResult)
      → cached_status (some (update config r (new_entry i))) ≡ false
  unfolding cached_status update new_entry
  update_new i r =
      rw (high, update)
        (elim (Bool-cases (is_healthy r.status)) [
          | inl e ↦ rw e (too_few t)
          | inr e ↦ rw e (failed (reached config.unhealthy_threshold 1))
        ])

  record_result-NoneHealthy :
      (i : ServiceInstance) (r : HealthCheckResult) (m : Cache)
      → Dict.get text_dec i.instance_id m ≡ none
      → NoneHealthy m
      → NoneHealthy (record_result config i.instance_id i r m)
  unfolding record_result entry_or_new
  record_result-NoneHealthy i r m absent h key = elim (text_dec key i.instance_id) [
    | yes p ↦ rw p (
        ap cached_status (
          Dict.get-set_self text_dec i.instance_id
            (update config r (entry_or_new i (Dict.get text_dec i.instance_id m))) m)
        ∙ ap (λ o. cached_status (some (update config r (entry_or_new i o)))) absent
        ∙ update_new i r)
    | no p ↦
        ap cached_status (
          Dict.get-set_ne text_dec i.instance_id key
            (update config r (entry_or_new i (Dict.get text_dec i.instance_id m))) m p)
        ∙ h key
  ]

  record_result-Absent :
      (i : ServiceInstance) (r : HealthCheckResult) (m : Cache) (is : List ServiceInstance)
      → All (λ j. j.instance_id ≢ i.instance_id) is
      → Absent m is
      → Absent (record_result config i.instance_id i r m) is
  unfolding record_result Absent
  record_result-Absent i r m [] d a = tt
  record_result-Absent i r m (j ∷ is) d a = (
    Dict.get-set_ne text_dec i.instance_id j.instance_id
          (update config r (entry_or_new i (Dict.get text_dec i.instance_id m))) m d.0
        ∙ a.0,
    record_result-Absent i r m is d.1 a.1,
  )

  module _ (now ttl : ℕ) (check : ServiceInstance → Option HealthCheckResult) where
    apply_checks-NoneHealthy :
        (is : List ServiceInstance) (m : Cache)
        → Distinct is
        → Absent m is
        → NoneHealthy m
        → NoneHealthy (apply_checks config now ttl check is m)
    unfolding apply_checks Absent
    apply_checks-NoneHealthy [] m d a h = h
    apply_checks-NoneHealthy (i ∷ is) m d a h =
        let r = result_of now (check i) in
        apply_checks-NoneHealthy is (record_result config i.instance_id i r m) d.1
          (record_result-Absent i r m is d.0 a.1) (record_result-NoneHealthy i r m a.0 h)

    new_cache-Absent : (is : List ServiceInstance) → Absent [] is
    unfolding Absent Dict.get
    new_cache-Absent [] = tt
    new_cache-Absent (i ∷ is) = (refl, new_cache-Absent is)

    to_check_new : (is : List ServiceInstance) → to_check config now ttl check [] is ≡ is
    unfolding to_check is_stale Dict.get
    to_check_new is = keep_all _ is (λ i. refl)

    none_listed :
        (allow : Bool) (is : List ServiceInstance) (m : Cache)
        → NoneHealthy m
        → or_all allow is (keep (is_cached_healthy m) is) ≡ (if allow then is else [])
    unfolding or_all is_cached_healthy
    none_listed allow is m h = ap (or_all allow is) (keep_none _ is (λ i. h i.instance_id))

    new_cache-NoneHealthy : NoneHealthy []
    unfolding cached_status Dict.get
    new_cache-NoneHealthy key = refl

    -- With a healthy threshold of two or more the first listing of a client with a health checker
    -- does not depend on what the checks give: it is all instances where falling back is allowed,
    -- and none where it is not, also if every check succeeds.
    pub first_listing :
        (allow : Bool) (is : List ServiceInstance)
        → Distinct is
        → (list_checked config now ttl check allow is []).1 ≡ (if allow then is else [])
    unfolding list_checked refresh_health_cache
    first_listing allow is d =
        none_listed allow is
          (apply_checks config now ttl check (to_check config now ttl check [] is) [])
          (subst (λ l. NoneHealthy (apply_checks config now ttl check l [])) (sym (to_check_new is))
            (apply_checks-NoneHealthy is [] d (new_cache-Absent is) new_cache-NoneHealthy))
