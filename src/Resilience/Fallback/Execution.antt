-- ===== src/Resilience/Fallback/Execution.antt =====
-- What FallbackExecutor of src/aduib_rpc/resilience/fallback.py returns and raises.
use mathlib.Core.Path.{subst}
use native.Mathlib.Decide.{ℕ_discrete}
use aduib_rpc.Prelude.{
  List, if◌then◌else◌, refl, some, ◌≡◌, ℕ, Option, arith, none, true, ◌∙◌, not, ◌&&◌, Bool-cases,
  inl, inr,
}
use aduib_rpc.Prelude.Dict
use aduib_rpc.Exceptions.{Exn}
use aduib_rpc.Resilience.Fallback
use aduib_rpc.Resilience.Fallback.{
  record_success, FallbackPolicy, Handlers, World, Handler, handle, after_call, fallback_result,
  Tried, can_handle, handler_then, update_cache, record_handler, exhausted_exn, cached_value,
  has_cache, static_value, handled, should_fallback, after_handler, callable, exhausted,
  cached_result, chain, try_handlers, custom, build_context, execute, outside,
}
use aduib_rpc.Resilience.CircuitBreaker.{raised, returned, Outcome}

set_keeps :
    {A : Type 0} (m n : ℕ) (a : A) (caches : List (ℕ × A))
    → Dict.get ℕ_discrete n caches ≡ some a
    → Dict.get ℕ_discrete n (Dict.set ℕ_discrete m a caches) ≡ some a
set_keeps m n a caches h = elim (ℕ_discrete n m) [
  | yes p ↦ rw p (Dict.get-set_self ℕ_discrete m a caches)
  | no p ↦ Dict.get-set_ne ℕ_discrete m n a caches p ∙ h
]

has_cached :
    {S A : Type 0} (n : ℕ) (a : A) (w : World S A)
    → Dict.get ℕ_discrete n w.caches ≡ some a
    → has_cache n w ≡ true
unfolding has_cache
has_cached n a w h = rw (h, has_cache) refl

module _ {S Call A : Type 0} where
  mutual
    unfolding record_success update_cache

    record_handler_keeps :
        (h : Handler S Call A) (n : ℕ) (a : A) (w : World S A)
        → Dict.get ℕ_discrete n w.caches ≡ some a
        → Dict.get ℕ_discrete n (record_handler h a w).caches ≡ some a
    record_handler_keeps (static_value b) n a w k = k
    record_handler_keeps (cached_value m) n a w k = set_keeps m n a w.caches k
    record_handler_keeps (callable f pass_error) n a w k = k
    record_handler_keeps (chain hs) n a w k = record_success_keeps hs n a w k
    record_handler_keeps (custom can f) n a w k = k

    record_success_keeps :
        (hs : Handlers S Call A) (n : ℕ) (a : A) (w : World S A)
        → Dict.get ℕ_discrete n w.caches ≡ some a
        → Dict.get ℕ_discrete n (record_success hs a w).caches ≡ some a
    record_success_keeps Fallback.no_handlers n a w k = k
    record_success_keeps (handler_then h hs) n a w k =
        record_success_keeps hs n a (record_handler h a w) (record_handler_keeps h n a w k)

  -- The value that a cached handler at the head of the handlers gives.
  first_cached :
      (n : ℕ) (hs : Handlers S Call A) (e : Exn) (context : Option Call) (a : A) (w : World S A)
      → Dict.get ℕ_discrete n w.caches ≡ some a
      → try_handlers (handler_then (cached_value n) hs) e context none w ≡ (w, handled a)
  unfolding handle can_handle after_handler cached_result
  first_cached n hs e context a w h = rw (h, has_cached n a w h, can_handle) refl

module _ {S Call A : Type 0} (x : FallbackPolicy S Call A) where
  after_call_caches :
      (n : ℕ) (hs : Handlers S Call A) (c : Call) (a : A) (w : World S A)
      → x.handlers ≡ handler_then (cached_value n) hs
      → Dict.get ℕ_discrete n (after_call x c (w, returned a)).0.caches ≡ some a
  unfolding after_call record_success update_cache
  after_call_caches n hs c a w first =
      rw (first, after_call)
        (record_success_keeps hs n a (update_cache n a w)
          (Dict.get-set_self ℕ_discrete n a w.caches))

  after_call_falls_back :
      (n : ℕ) (hs : Handlers S Call A) (c : Call) (e : Exn) (a : A) (w : World S A)
      → x.handlers ≡ handler_then (cached_value n) hs
      → should_fallback x e ≡ true
      → Dict.get ℕ_discrete n w.caches ≡ some a
      → (after_call x c (w, raised e)).1 ≡ returned a
  unfolding after_call fallback_result
  after_call_falls_back n hs c e a w first falls there =
      rw (falls, first, first_cached n hs e (build_context x c) a w there) refl

  raises_after :
      (e e' : Exn) (t : World S A × Tried A)
      → (fallback_result x e t).1 ≡ raised e'
      → e' ≡ (if x.propagate_original_error then e else exhausted_exn)
  unfolding fallback_result
  raises_after e e' (w, handled a) h = absurd (ground arith)
  raises_after e e' (w, exhausted last) h = ground arith

  success_caches :
      (n : ℕ) (hs : Handlers S Call A) (c : Call) (a : A) (w : World S A) (p : S × Outcome A)
      → x.handlers ≡ handler_then (cached_value n) hs
      → p.1 ≡ returned a
      → Dict.get ℕ_discrete n (after_call x c (outside w p)).0.caches ≡ some a
  unfolding outside
  success_caches n hs c a w (s, o) first h =
      rw h (after_call_caches n hs c a (record w { outer = s }) first)

  failure_falls_back :
      (n : ℕ) (hs : Handlers S Call A) (c : Call) (e : Exn) (a : A) (w : World S A)
      (p : S × Outcome A)
      → x.handlers ≡ handler_then (cached_value n) hs
      → p.1 ≡ raised e
      → should_fallback x e ≡ true
      → Dict.get ℕ_discrete n w.caches ≡ some a
      → (after_call x c (outside w p)).1 ≡ returned a
  unfolding outside
  failure_falls_back n hs c e a w (s, o) first h falls there =
      rw h (after_call_falls_back n hs c e a (record w { outer = s }) first falls there)

  failure_raises :
      (c : Call) (e e' : Exn) (w : World S A)
      → (after_call x c (w, raised e)).1 ≡ raised e'
      → e' ≡ (if should_fallback x e && not x.propagate_original_error then exhausted_exn else e)
  unfolding after_call
  failure_raises c e e' w h = elim (Bool-cases (should_fallback x e)) [
    | inl p ↦
        ground (arith, raises_after e e' (try_handlers x.handlers e (build_context x c) none w))
    | inr p ↦ ground arith
  ]

  failure_raises_of :
      (c : Call) (e e' : Exn) (w : World S A) (p : S × Outcome A)
      → p.1 ≡ raised e
      → (after_call x c (outside w p)).1 ≡ raised e'
      → e' ≡ (if should_fallback x e && not x.propagate_original_error then exhausted_exn else e)
  unfolding outside
  failure_raises_of c e e' w (s, o) h raises =
      failure_raises c e e' (record w { outer = s })
        (subst (λ o'. (after_call x c (record w { outer = s }, o')).1 ≡ raised e') h raises)

  -- A cached handler at the head of the handlers gives the value of the last success: after a call
  -- that returned it, a call that raises an exception for which the policy falls back returns it
  -- too, whatever the other handlers are.
  pub execute_cached :
      (n : ℕ) (hs : Handlers S Call A) (f g : Call → S → S × Outcome A) (c d : Call) (a : A)
      (e : Exn) (w : World S A)
      → x.handlers ≡ handler_then (cached_value n) hs
      → (f c w.outer).1 ≡ returned a
      → (g d (execute x f c w).0.outer).1 ≡ raised e
      → should_fallback x e ≡ true
      → (execute x g d (execute x f c w).0).1 ≡ returned a
  unfolding execute outside
  execute_cached n hs f g c d a e w first good bad falls =
      failure_falls_back n hs d e a (execute x f c w).0 (g d (execute x f c w).0.outer) first bad
        falls (success_caches n hs c a w (f c w.outer) first good)

  -- What `execute` raises after a call that raised is the exception of the call, unless the policy
  -- falls back for it and does not propagate it: then it is a FallbackExhaustedError, and never what
  -- a handler raised.
  pub execute_raises :
      (func : Call → S → S × Outcome A) (c : Call) (e e' : Exn) (w : World S A)
      → (func c w.outer).1 ≡ raised e
      → (execute x func c w).1 ≡ raised e'
      → e' ≡ (if should_fallback x e && not x.propagate_original_error then exhausted_exn else e)
  unfolding execute outside
  execute_raises func c e e' w bad h = failure_raises_of c e e' w (func c w.outer) bad h

module _ {S Call A : Type 0} where
  -- What is remembered of a value changes nothing outside.
  mutual
    unfolding record_handler record_success update_cache

    record_handler_outer :
        (h : Handler S Call A) (a : A) (w : World S A) → (record_handler h a w).outer ≡ w.outer
    record_handler_outer (static_value b) a w = refl
    record_handler_outer (cached_value n) a w = refl
    record_handler_outer (callable f pass_error) a w = refl
    record_handler_outer (chain hs) a w = record_success_outer hs a w
    record_handler_outer (custom can f) a w = refl

    record_success_outer :
        (hs : Handlers S Call A) (a : A) (w : World S A) → (record_success hs a w).outer ≡ w.outer
    record_success_outer Fallback.no_handlers a w = refl
    record_success_outer (handler_then h hs) a w =
        record_success_outer hs a (record_handler h a w) ∙ record_handler_outer h a w

  after_call_returned :
      (x : FallbackPolicy S Call A) (c : Call) (a : A) (w : World S A) (p : S × Outcome A)
      → p.1 ≡ returned a
      → ((after_call x c (outside w p)).0.outer ≡ p.0)
        × ((after_call x c (outside w p)).1 ≡ returned a)
  unfolding after_call outside
  after_call_returned x c a w (s, returned b) e =
      (record_success_outer x.handlers b (record w { outer = s }), e)
  after_call_returned x c a w (s, raised b) e = absurd (ground arith)

  -- A function that returns is run once, and its value is returned.
  pub execute_returned :
      (x : FallbackPolicy S Call A) (func : Call → S → S × Outcome A) (c : Call) (a : A)
      (w : World S A)
      → (func c w.outer).1 ≡ returned a
      → ((execute x func c w).0.outer ≡ (func c w.outer).0) × ((execute x func c w).1 ≡ returned a)
  unfolding execute
  execute_returned x func c a w e = after_call_returned x c a w (func c w.outer) e
