-- ===== src/Resilience/Fallback/Caches.antt =====
-- Which code of src/aduib_rpc/resilience/fallback.py writes the cached values.
use aduib_rpc.Prelude.{Bool-cases, List, Option, inl, inr, none, refl, some, ℕ, ◌∙◌, ◌≡◌}
use aduib_rpc.Exceptions.{Exn}
use aduib_rpc.Resilience.Fallback
use aduib_rpc.Resilience.Fallback.{
  FallbackPolicy, Handlers, World, Handler, handle, after_call, fallback_result, Tried, can_handle,
  handler_then, cached_value, static_value, handled, should_fallback, after_handler, callable,
  exhausted, chain, try_handlers, custom, build_context, execute, outside, chain_result,
}
use aduib_rpc.Resilience.CircuitBreaker.{raised, returned, Outcome}

module _ {S A : Type 0} where
  chain_result_caches : (p : World S A × Tried A) → (chain_result p).0.caches ≡ p.0.caches
  unfolding chain_result
  chain_result_caches (w, handled a) = refl
  chain_result_caches (w, exhausted none) = refl
  chain_result_caches (w, exhausted (some e)) = refl

  outside_caches : (w : World S A) (p : S × Outcome A) → (outside w p).0.caches ≡ w.caches
  unfolding outside
  outside_caches w (s, o) = refl

  after_handler_caches :
      (cs : List (ℕ × A)) (p : World S A × Outcome A)
      (next : Option Exn → World S A → World S A × Tried A)
      → p.0.caches ≡ cs
      → ((last : Option Exn) (v : World S A) → v.caches ≡ cs → (next last v).0.caches ≡ cs)
      → (after_handler p next).0.caches ≡ cs
  unfolding after_handler
  after_handler_caches cs (w, returned a) next h keep = h
  after_handler_caches cs (w, raised e) next h keep = keep (some e) w h

module _ {S Call A : Type 0} where
  mutual
    unfolding handle

    handle_caches :
        (h : Handler S Call A) (e : Exn) (context : Option Call) (w : World S A)
        → (handle h e context w).0.caches ≡ w.caches
    handle_caches (static_value a) e context w = refl
    handle_caches (cached_value n) e context w = refl
    handle_caches (callable f pass_error) e context w = refl
    handle_caches (chain hs) e context w =
        chain_result_caches (try_handlers hs e context none w)
        ∙ try_handlers_caches hs e context none w
    handle_caches (custom can f) e context w = refl

    try_handlers_caches :
        (hs : Handlers S Call A) (e : Exn) (context : Option Call) (last : Option Exn)
        (w : World S A)
        → (try_handlers hs e context last w).0.caches ≡ w.caches
    try_handlers_caches Fallback.no_handlers e context last w = refl
    try_handlers_caches (handler_then h hs) e context last w =
        elim (Bool-cases (can_handle h e w)) [
          | inl yes_ ↦ rw yes_ (
              after_handler_caches w.caches (handle h e context w) (try_handlers hs e context)
                (handle_caches h e context w) (λ l v k. try_handlers_caches hs e context l v ∙ k))
          | inr no_ ↦ rw no_ (try_handlers_caches hs e context last w)
        ]

module _ {S Call A : Type 0} (x : FallbackPolicy S Call A) where
  fallback_result_caches :
      (e : Exn) (p : World S A × Tried A) → (fallback_result x e p).0.caches ≡ p.0.caches
  unfolding fallback_result
  fallback_result_caches e (w, handled a) = refl
  fallback_result_caches e (w, exhausted last) = refl

  after_call_caches_raised :
      (c : Call) (e : Exn) (w : World S A) → (after_call x c (w, raised e)).0.caches ≡ w.caches
  unfolding after_call
  after_call_caches_raised c e w = elim (Bool-cases (should_fallback x e)) [
    | inl h ↦ rw h (
        fallback_result_caches e (try_handlers x.handlers e (build_context x c) none w)
        ∙ try_handlers_caches x.handlers e (build_context x c) none w)
    | inr h ↦ rw h refl
  ]

  -- An execution whose callable raises writes no cached value.
  pub execute_caches :
      (handler : Call → S → S × Outcome A) (c : Call) (w : World S A) (e : Exn)
      → (handler c w.outer).1 ≡ raised e
      → (execute x handler c w).0.caches ≡ w.caches
  unfolding execute
  execute_caches handler c w e h =
      rw (h, execute) (after_call_caches_raised c e (record w { outer = (handler c w.outer).0 }))
