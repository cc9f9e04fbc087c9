-- ===== src/Server/Interceptor/Tenants.antt =====
-- The limiters of different tenants in a ServerResilienceInterceptor of
-- src/aduib_rpc/server/interceptors/resilience.py.
use mathlib.Core.Logic.{ite}
use aduib_rpc.Prelude.{
  Bool, List, Option, [], none, refl, some, true, ℕ, ◌∷◌, ◌≡◌, ◌≢◌, arith, ◌∙◌, ap, sym,
}
use aduib_rpc.Prelude.Dict
use aduib_rpc.Resilience.RateLimiter
use aduib_rpc.Resilience.RateLimiter.{RateLimiter, RateLimiterConfig}
use aduib_rpc.Server.Interceptor.{ServerResilience, limit, ensure, take_one}

-- A limiter on its own, over the clock readings of its requests: which of them it grants. It is
-- made at the first one, if it is not there.
made : RateLimiterConfig → ℕ → Option RateLimiter → RateLimiter
made c now none = RateLimiter.init c now
made c now (some l) = l

unfoldable pub alone : RateLimiterConfig → Option RateLimiter → List ℕ → List Bool
unfolding made
alone c o [] = []
alone c o (now ∷ ts) =
    (RateLimiter.try_acquire 1 now (made c now o)).acquired
    ∷ alone c (some (RateLimiter.try_acquire 1 now (made c now o)).limiter) ts

module _ {K : Type 0} (dec : Discrete K) where
  -- The clock readings of one tenant's requests, and the answers to them.
  unfoldable pub times_of : K → List (K × ℕ) → List ℕ
  times_of k [] = []
  times_of k ((j, now) ∷ rs) = ite (dec j k) (now ∷ times_of k rs) (times_of k rs)

  unfoldable pub answers_of : K → List (K × Bool) → List Bool
  answers_of k [] = []
  answers_of k ((j, a) ∷ rs) = ite (dec j k) (a ∷ answers_of k rs) (answers_of k rs)

module _ {K : Type 0} (dec : Discrete K) (default : K) where
  ensure_self :
      (c : RateLimiterConfig) (tenant : K) (now : ℕ) (o : Option RateLimiter)
      (ls : List (K × RateLimiter))
      → Dict.get dec tenant ls ≡ o
      → Dict.get dec tenant (ensure dec default tenant now c o ls) ≡ some (made c now o)
  unfolding ensure made
  ensure_self c tenant now none ls h = Dict.get-set_self dec tenant (RateLimiter.init c now) ls
  ensure_self c tenant now (some l) ls h = h

  ensure_other :
      (c : RateLimiterConfig) (k tenant : K) (now : ℕ) (o : Option RateLimiter)
      (ls : List (K × RateLimiter))
      → k ≢ tenant
      → Dict.get dec k (ensure dec default tenant now c o ls) ≡ Dict.get dec k ls
  unfolding ensure
  ensure_other c k tenant now none ls h = Dict.get-set_ne dec tenant k (RateLimiter.init c now) ls h
  ensure_other c k tenant now (some l) ls h = refl

  take_self :
      (key : K) (now : ℕ) (l : RateLimiter) (ls : List (K × RateLimiter))
      → Dict.get dec key ls ≡ some l
      → let (ls', allowed) = take_one dec default key now (Dict.get dec key ls) ls in
        (allowed ≡ (RateLimiter.try_acquire 1 now l).acquired)
        × (Dict.get dec key ls' ≡ some (RateLimiter.try_acquire 1 now l).limiter)
  unfolding take_one
  take_self key now l ls h =
      rw (h, take_one)
        (refl, Dict.get-set_self dec key (RateLimiter.try_acquire 1 now l).limiter ls)

  take_other :
      (k key : K) (now : ℕ) (o : Option RateLimiter) (ls : List (K × RateLimiter))
      → k ≢ key
      → Dict.get dec k (take_one dec default key now o ls).0 ≡ Dict.get dec k ls
  unfolding take_one
  take_other k key now none ls h = refl
  take_other k key now (some l) ls h =
      Dict.get-set_ne dec key k (RateLimiter.try_acquire 1 now l).limiter ls h

module _ {K F : Type 0} (dec : Discrete K) (default : K) where
  -- The answers of the first guard to requests one after another.
  unfoldable pub limit_all : List (K × ℕ) → ServerResilience K F → List (K × Bool)
  limit_all [] s = []
  limit_all ((tenant, now) ∷ rs) s =
      let (s', allowed) = limit dec default tenant now s in (tenant, allowed) ∷ limit_all rs s'

  limit_taken :
      (c : RateLimiterConfig) (tenant : K) (now : ℕ) (s : ServerResilience K F)
      → s.config.rate_limiter ≡ some c
      → s.config.tenant_isolated ≡ true
      → let ls =
          ensure dec default tenant now c (Dict.get dec tenant s.rate_limiters) s.rate_limiters in
        limit dec default tenant now s ≡ (
          record s {
            rate_limiters = (take_one dec default tenant now (Dict.get dec tenant ls) ls).0;
          },
          (take_one dec default tenant now (Dict.get dec tenant ls) ls).1,
        )
  unfolding limit
  limit_taken c tenant now s h t = ground arith

  limit_self :
      (c : RateLimiterConfig) (tenant : K) (now : ℕ) (s : ServerResilience K F)
      → s.config.rate_limiter ≡ some c
      → s.config.tenant_isolated ≡ true
      → let l = made c now (Dict.get dec tenant s.rate_limiters) in
        let (s', allowed) = limit dec default tenant now s in
        (allowed ≡ (RateLimiter.try_acquire 1 now l).acquired)
        × (Dict.get dec tenant s'.rate_limiters ≡ some (RateLimiter.try_acquire 1 now l).limiter)
  limit_self c tenant now s h t =
      let l = made c now (Dict.get dec tenant s.rate_limiters) in
      let ls =
        ensure dec default tenant now c (Dict.get dec tenant s.rate_limiters) s.rate_limiters in
      rw (limit_taken c tenant now s h t) (
        take_self dec default tenant now l ls (
          ensure_self dec default c tenant now (Dict.get dec tenant s.rate_limiters) s.rate_limiters
            refl))

  limit_other :
      (c : RateLimiterConfig) (k tenant : K) (now : ℕ) (s : ServerResilience K F)
      → s.config.rate_limiter ≡ some c
      → s.config.tenant_isolated ≡ true
      → k ≢ tenant
      → Dict.get dec k (limit dec default tenant now s).0.rate_limiters
        ≡ Dict.get dec k s.rate_limiters
  limit_other c k tenant now s h t n =
      let o = Dict.get dec tenant s.rate_limiters in
      let ls = ensure dec default tenant now c o s.rate_limiters in
      rw (limit_taken c tenant now s h t) (
        take_other dec default k tenant now (Dict.get dec tenant ls) ls n
        ∙ ensure_other dec default c k tenant now o s.rate_limiters n)

  limit_config :
      (c : RateLimiterConfig) (tenant : K) (now : ℕ) (s : ServerResilience K F)
      → s.config.rate_limiter ≡ some c
      → s.config.tenant_isolated ≡ true
      → (limit dec default tenant now s).0.config ≡ s.config
  limit_config c tenant now s h t = rw (limit_taken c tenant now s h t) refl

  -- With isolated tenants the answers to a tenant's requests are those of a limiter of its own,
  -- whatever requests of other tenants come between them.
  pub limit_all_isolated :
      (c : RateLimiterConfig) (k : K) (rs : List (K × ℕ)) (s : ServerResilience K F)
      → s.config.rate_limiter ≡ some c
      → s.config.tenant_isolated ≡ true
      → answers_of dec k (limit_all rs s)
        ≡ alone c (Dict.get dec k s.rate_limiters) (times_of dec k rs)
  unfolding limit_all answers_of alone times_of
  limit_all_isolated c k [] s h t = refl
  limit_all_isolated c k ((j, now) ∷ rs) s h t =
      let s' = (limit dec default j now s).0 in
      let same = limit_config c j now s h t in
      let ih =
        limit_all_isolated c k rs s' (ap (λ x. x.rate_limiter) same ∙ h)
          (ap (λ x. x.tenant_isolated) same ∙ t) in
      elim (dec j k) [
        | yes p ↦ let (a, l) = limit_self c j now s h t in ground (arith)
        | no p ↦ let o = limit_other c k j now s h t (λ e. p (sym e)) in ground (arith)
      ]
