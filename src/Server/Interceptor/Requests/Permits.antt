-- ===== src/Server/Interceptor/Requests/Permits.antt =====
-- The permits of the bulkhead that the requests inside a ServerResilienceInterceptor hold:
-- src/aduib_rpc/server/interceptors/resilience.py.
use mathlib.Core.Path.{subst}
use aduib_rpc.Prelude.{
  List, Option, [], arith, false, get_elem?, if◌then◌else◌, none, remove_at, some, suc, true, zero,
  ℕ, ◌+◌, ◌∷◌, ◌≡◌, sym, Bool, refl, ◌≤◌, at_least,
}
use aduib_rpc.Resilience.Bulkhead
use aduib_rpc.Resilience.Bulkhead.{Bulkhead, tries, releases, BulkheadConfig}
use aduib_rpc.Resilience.Bulkhead.Bounds.{IsValid, step-IsValid, init-IsValid}
use aduib_rpc.Server.Interceptor.Requests.{
  Event, arrives, leaves, System, permit_of, permits, leave_place, step, run, start,
}
use aduib_rpc.Server.Interceptor.{
  ServerResilience, Entry, unguarded, aborted, entered, enter, leave, limit, permit, past_limit,
  leave_bulkhead, limit_by, permit_by, ServerResilienceConfig, init, refresh_from_config,
}
use aduib_rpc.Resilience.RateLimiter.{RateLimiterConfig, RateLimiter}
use aduib_rpc.Resilience.CircuitBreaker.{CircuitBreaker}

-- A bulkhead in good order of `m` slots, `n` of them held.
Held : Option Bulkhead → ℕ → ℕ → Type 0
Held none m n = ⊥
Held (some b) m n = IsValid b × (b.max_concurrent ≡ m) × (b.holding ≡ n)

permits-remove_at :
    (e : Entry) (es : List Entry) (i : ℕ)
    → get_elem? es i ≡ some e
    → permits (remove_at es i) + permit_of e ≡ permits es
unfolding permits
permits-remove_at e [] i h = absurd (ground arith)
permits-remove_at e (d ∷ es) zero h = ground arith
permits-remove_at e (d ∷ es) (suc i) h = omega (arith, permits-remove_at e es i h)

try-Held :
    (b : Bulkhead) (m n : ℕ)
    → Held (some b) m n
    → let (b', ok) = Bulkhead.try_acquire b in Held (some b') m (n + (if ok then 1 else 0))
unfolding Held Bulkhead.try_acquire Bulkhead.step
try-Held b m n h = (step-IsValid tries b h.0, ground arith, ground arith)

release-Held :
    (b : Bulkhead) (m n : ℕ) → Held (some b) m (n + 1) → Held (some (Bulkhead.release b)) m n
unfolding Held Bulkhead.release Bulkhead.step
release-Held b m n h = (ground (arith, step-IsValid releases b h.0), ground arith, ground arith)

drop_zero : (b : Option Bulkhead) (m n : ℕ) → Held b m (n + 0) → Held b m n
drop_zero b m n h = subst (λ k. Held b m k) (omega arith) h

add_zero : (b : Option Bulkhead) (m n : ℕ) → Held b m n → Held b m (n + 0)
add_zero b m n h = subst (λ k. Held b m k) (omega arith) h

release_option : (b : Option Bulkhead) (m n : ℕ) → Held b m (n + 1) → Held (leave_bulkhead b) m n
unfolding Held leave_bulkhead
release_option none m n h = absurd h
release_option (some b) m n h = release-Held b m n h

leave-Held :
    {K F : Type 0} (m n : ℕ) (e : Entry) (s : ServerResilience K F)
    → Held s.bulkhead m (n + permit_of e)
    → Held (leave e s).bulkhead m n
unfolding leave permit_of
leave-Held m n (entered true) s h = release_option s.bulkhead m n h
leave-Held m n (entered false) s h = drop_zero s.bulkhead m n h
leave-Held m n (aborted code) s h = drop_zero s.bulkhead m n h
leave-Held m n unguarded s h = drop_zero s.bulkhead m n h

limit_by_bulkhead :
    {K F : Type 0} (dec : Discrete K) (default : K) (c : Option RateLimiterConfig) (tenant : K)
    (now : ℕ) (s : ServerResilience K F)
    → (limit_by dec default c tenant now s).0.bulkhead ≡ s.bulkhead
unfolding limit_by
limit_by_bulkhead dec default none tenant now s = refl
limit_by_bulkhead dec default (some c) tenant now s = refl

entry-Held :
    (m n : ℕ) (b : Bulkhead) (ok : Bool)
    → Held (some b) m (n + (if ok then 1 else 0))
    → Held (some b) m (n + permit_of (if ok then entered true else aborted 5021))
unfolding permit_of
entry-Held m n b true h = h
entry-Held m n b false h = h

module _ {K F : Type 0} (dec : Discrete K) (default : K) where
  permit_by-Held :
      (m n : ℕ) (b : Option Bulkhead) (s : ServerResilience K F)
      → Held b m n
      → let (s', e) = permit_by dec default b s in Held s'.bulkhead m (n + permit_of e)
  unfolding permit_by Held
  permit_by-Held m n none s h = absurd h
  permit_by-Held m n (some b) s h =
      entry-Held m n (Bulkhead.try_acquire b).0 (Bulkhead.try_acquire b).1 (try-Held b m n h)

  past_limit-Held :
      (m n : ℕ) (s : ServerResilience K F) (allowed : Bool)
      → Held s.bulkhead m n
      → let (s', e) = past_limit dec default (s, allowed) in Held s'.bulkhead m (n + permit_of e)
  unfolding past_limit permit permit_of
  past_limit-Held m n s true h = permit_by-Held m n s.bulkhead s h
  past_limit-Held m n s false h = add_zero s.bulkhead m n h

  if_Held :
      (on : Bool) (m n : ℕ) (p : ServerResilience K F × Entry) (s : ServerResilience K F)
      → Held p.0.bulkhead m (n + permit_of p.1)
      → Held s.bulkhead m n
      → let (s', e) = if on then p else (s, unguarded) in Held s'.bulkhead m (n + permit_of e)
  unfolding permit_of
  if_Held true m n p s h k = h
  if_Held false m n p s h k = add_zero s.bulkhead m n k

  enter-Held :
      (m n : ℕ) (tenant : K) (now : ℕ) (s : ServerResilience K F)
      → Held s.bulkhead m n
      → let (s', e) = enter dec default tenant now s in Held s'.bulkhead m (n + permit_of e)
  unfolding enter limit
  enter-Held m n tenant now s h =
      let (l, allowed) = limit dec default tenant now s in
      if_Held s.config.enabled m n (past_limit dec default (l, allowed)) s
        (past_limit-Held m n l allowed (
          subst (λ b. Held b m n)
            (sym (limit_by_bulkhead dec default s.config.rate_limiter tenant now s)) h))
        h

  IsKept : ℕ → System K F → Type 0
  IsKept m y = Held y.server.bulkhead m (permits y.inside)

  leave_place-IsKept :
      (m i : ℕ) (o : Option Entry) (y : System K F)
      → get_elem? y.inside i ≡ o
      → IsKept m y
      → IsKept m (leave_place i o y)
  unfolding IsKept leave_place
  leave_place-IsKept m i none y at h = h
  leave_place-IsKept m i (some e) y at h =
      leave-Held m (permits (remove_at y.inside i)) e y.server
        (subst (λ k. Held y.server.bulkhead m k) (sym (permits-remove_at e y.inside i at)) h)

  step-IsKept :
      (m : ℕ) (e : Event K) (y : System K F) → IsKept m y → IsKept m (step dec default e y)
  unfolding IsKept step permits
  step-IsKept m (arrives tenant now) y h =
      subst (λ k. Held (enter dec default tenant now y.server).0.bulkhead m k) (omega arith)
        (enter-Held m (permits y.inside) tenant now y.server h)
  step-IsKept m (leaves i) y h = leave_place-IsKept m i (get_elem? y.inside i) y refl h

  run-IsKept :
      (m : ℕ) (es : List (Event K)) (y : System K F) → IsKept m y → IsKept m (run dec default es y)
  unfolding run
  run-IsKept m [] y h = h
  run-IsKept m (e ∷ es) y h = run-IsKept m es (step dec default e y) (step-IsKept m e y h)

Held-bulkhead :
    (m n : ℕ) (b : Option Bulkhead)
    → Held b m n
    → (b' : Bulkhead) × (b ≡ some b') × (b'.holding ≡ n) × (n ≤ m) × (b'.free + n ≡ m)
unfolding Held
Held-bulkhead m n none h = absurd h
Held-bulkhead m n (some b) (v, e, k) = (b, refl, k, omega (arith, v.slots), omega (arith, v.slots))

module _ {K F : Type 0} (dec : Discrete K) (default : K) where
  start-IsKept :
      (config : ServerResilienceConfig F) (bulkhead : BulkheadConfig) (l : Option RateLimiter)
      (b : Option CircuitBreaker) (f : Option F) (now : ℕ)
      → config.bulkhead ≡ some bulkhead
      → IsKept dec default
          (at_least 1 bulkhead.max_concurrent)
          (start (init dec default config l b none f now))
  unfolding IsKept start init permits Held Bulkhead.init
  start-IsKept config bulkhead l b f now h = rw h (init-IsValid bulkhead, refl, refl)

  -- An interceptor that makes its bulkhead from its configuration keeps it in step with the
  -- requests: after any arrivals and departures the bulkhead is still there, as many of its slots
  -- are held as requests with a permit are inside, at most `max_concurrent`, and the rest are free.
  pub permits_bounded :
      (config : ServerResilienceConfig F) (bulkhead : BulkheadConfig) (l : Option RateLimiter)
      (b : Option CircuitBreaker) (f : Option F) (now : ℕ) (es : List (Event K))
      → config.bulkhead ≡ some bulkhead
      → let y = run dec default es (start (init dec default config l b none f now)) in
        (b' : Bulkhead) × (y.server.bulkhead ≡ some b')
        × (b'.holding ≡ permits y.inside)
        × (permits y.inside ≤ at_least 1 bulkhead.max_concurrent)
        × (b'.free + permits y.inside ≡ at_least 1 bulkhead.max_concurrent)
  unfolding IsKept
  permits_bounded config bulkhead l b f now es h =
      let y = run dec default es (start (init dec default config l b none f now)) in
      Held-bulkhead (at_least 1 bulkhead.max_concurrent) (permits y.inside) y.server.bulkhead (
        run-IsKept dec default (at_least 1 bulkhead.max_concurrent) es
          (start (init dec default config l b none f now))
          (start-IsKept config bulkhead l b f now h))

  -- A request that holds a permit when `refresh_from_config` makes a new bulkhead gives it back to
  -- the new one, whose semaphore then has one value more than `max_concurrent`.
  pub refresh_overcommits :
      (s : ServerResilience K F) (bulkhead : BulkheadConfig) (now : ℕ)
      → s.explicit.bulkhead ≡ false
      → s.config.bulkhead ≡ some bulkhead
      → (b : Bulkhead) × ((leave (entered true) (refresh_from_config dec default now s)).bulkhead
          ≡ some b)
        × (b.max_concurrent ≡ at_least 1 bulkhead.max_concurrent)
        × (b.free ≡ b.max_concurrent + 1)
  unfolding leave refresh_from_config Bulkhead.init Bulkhead.release
  refresh_overcommits s bulkhead now h k =
      (Bulkhead.release (Bulkhead.init bulkhead), rw (h, k) refl, refl, refl)
