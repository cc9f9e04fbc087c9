-- ===== src/Server/Handler/Cached.antt =====
-- When a request through a ResilienceHandler of
-- src/aduib_rpc/server/interceptors/resilience.py writes a cached value of its fallback.
use aduib_rpc.Prelude.{List, [], inl, inr, none, refl, some, ◌∙◌, ◌∷◌, ◌≡◌, ◌⊎◌}
use aduib_rpc.Exceptions.{Exn}
use aduib_rpc.Resilience.CircuitBreaker.{Outcome, returned, raised}
use aduib_rpc.Resilience.Fallback.{FallbackPolicy, World}
use aduib_rpc.Resilience.Fallback.Caches.{execute_caches}
use aduib_rpc.Server.Handler.{handle}

Outcome-cases :
    {A : Type 0} (o : Outcome A) → ((a : A) × (o ≡ returned a)) ⊎ ((e : Exn) × (o ≡ raised e))
Outcome-cases (returned a) = inl (a, refl)
Outcome-cases (raised e) = inr (e, refl)

module _ {S Call A : Type 0} (x : FallbackPolicy S Call A)
    (handler : Call → S → S × Outcome A) where
  -- Calls one after another, with no breaker; the clock plays no part.
  unfoldable pub serve_all : List Call → World S A → World S A
  serve_all [] w = w
  serve_all (c ∷ cs) w = serve_all cs (handle 0 0 (some x) handler c none w).world

  handle_caches :
      (c : Call) (w : World S A)
      → ((s t : S) → (handler c s).1 ≡ (handler c t).1)
      → (handle 0 0 (some x) handler c none w).world.caches ≡ w.caches
  unfolding handle
  handle_caches c w same = elim (Outcome-cases (handler c w.outer).1) [
    | inl (a, h) ↦ rw (h, handle) refl
    | inr (e, h) ↦
        rw (h, handle)
          (execute_caches x handler c (record w { outer = (handler c w.outer).0 }) e
            (same (handler c w.outer).0 w.outer ∙ h))
  ]

  -- Where the outcome of a call does not depend on the state, no request writes a cached value,
  -- whether it succeeds or not.
  pub never_cached :
      (cs : List Call) (w : World S A)
      → ((c : Call) (s t : S) → (handler c s).1 ≡ (handler c t).1)
      → (serve_all cs w).caches ≡ w.caches
  unfolding serve_all
  never_cached [] w same = refl
  never_cached (c ∷ cs) w same =
      never_cached cs (handle 0 0 (some x) handler c none w).world same ∙ handle_caches c w (same c)
