-- ===== src/Resilience/Fallback.antt =====
-- src/aduib_rpc/resilience/fallback.py: the handlers and FallbackExecutor. What callables change
-- outside is a state S, and a CachedValueFallback is a reference to a place that holds its value, so
-- that one handler in two chains is one handler. Exceptions are instances of Exception: a
-- cancellation passes all of this code.
pub mod Execution
pub mod Caches
use native.Mathlib.Decide.{ℕ_discrete}
use aduib_rpc.Prelude.{Bool, List, ℕ, ◌||◌, Option, [], any, false, if◌then◌else◌, none, some, true}
use aduib_rpc.Prelude.Dict
use aduib_rpc.Exceptions.{ExcClass, Exn, isinstance, fallback_exhausted_error, rpc_instance}
use aduib_rpc.Resilience.CircuitBreaker.{Outcome, raised, returned}

-- The handlers over calls of type `Call`. The context of a handler is that of a call, or empty.
mutual
  pub data Handler (S Call A : Type 0) : Type 0 where
    static_value : A → Handler S Call A
    cached_value : ℕ → Handler S Call A
    callable : (Option Exn → Option Call → S → S × Outcome A) → Bool → Handler S Call A
    chain : Handlers S Call A → Handler S Call A
    custom : (Exn → S → Bool) → (Exn → Option Call → S → S × Outcome A) → Handler S Call A

  pub data Handlers (S Call A : Type 0) : Type 0 where
    no_handlers : Handlers S Call A
    handler_then : Handler S Call A → Handlers S Call A → Handlers S Call A

pub record World (S A : Type 0) : Type 0 where
  pub outer : S
  pub caches : List (ℕ × A)

-- What the tries of handlers give: a value, or the last exception, if a handler was tried.
pub data Tried (A : Type 0) : Type 0 where
  handled : A → Tried A
  exhausted : Option Exn → Tried A

-- FallbackExhaustedError, and the LookupError of an empty cache.
abbrev pub exhausted_exn : Exn
unfolding rpc_instance
exhausted_exn = rpc_instance fallback_exhausted_error

abbrev lookup_exn : Exn
lookup_exn = record { mro = []; code = 0 }

cached_result : {A : Type 0} → Option A → Outcome A
cached_result none = raised lookup_exn
cached_result (some a) = returned a

module _ {S A : Type 0} where
  -- `has_cache`, `clear_cache` and `_update_cache`.
  unfoldable pub has_cache : ℕ → World S A → Bool
  has_cache n w = elim (Dict.get ℕ_discrete n w.caches) [ none ↦ false | some a ↦ true ]

  unfoldable pub clear_cache : ℕ → World S A → World S A
  clear_cache n w = record w { caches = Dict.pop ℕ_discrete n w.caches }

  unfoldable pub update_cache : ℕ → A → World S A → World S A
  update_cache n a w = record w { caches = Dict.set ℕ_discrete n a w.caches }

  -- The end of a chain: its last exception, or FallbackExhaustedError.
  chain_result : World S A × Tried A → World S A × Outcome A
  chain_result (w, handled a) = (w, returned a)
  chain_result (w, exhausted none) = (w, raised exhausted_exn)
  chain_result (w, exhausted (some e)) = (w, raised e)

  -- What an outside function leaves.
  outside : World S A → S × Outcome A → World S A × Outcome A
  outside w (s, o) = (record w { outer = s }, o)

  -- The rest of the loop over handlers, by what a handler does.
  after_handler :
      World S A × Outcome A → (Option Exn → World S A → World S A × Tried A) → World S A × Tried A
  after_handler (w, returned a) next = (w, handled a)
  after_handler (w, raised e) next = next (some e) w

module _ {S Call A : Type 0} where
  -- `can_handle`, where a chain can handle what any of its handlers can.
  unfoldable mutual
    unfolding has_cache

    pub can_handle : Handler S Call A → Exn → World S A → Bool
    can_handle (static_value a) e w = true
    can_handle (cached_value n) e w = has_cache n w
    can_handle (callable f pass_error) e w = true
    can_handle (chain hs) e w = any_can_handle hs e w
    can_handle (custom can f) e w = can e w.outer

    any_can_handle : Handlers S Call A → Exn → World S A → Bool
    any_can_handle no_handlers e w = false
    any_can_handle (handler_then h hs) e w = can_handle h e w || any_can_handle hs e w

  -- `handle`, and the loop that ChainFallback and `execute` have.
  unfoldable mutual
    unfolding can_handle chain_result outside after_handler cached_result

    pub handle : Handler S Call A → Exn → Option Call → World S A → World S A × Outcome A
    handle (static_value a) e context w = (w, returned a)
    handle (cached_value n) e context w = (w, cached_result (Dict.get ℕ_discrete n w.caches))
    handle (callable f pass_error) e context w =
        outside w (f (if pass_error then some e else none) context w.outer)
    handle (chain hs) e context w = chain_result (try_handlers hs e context none w)
    handle (custom can f) e context w = outside w (f e context w.outer)

    try_handlers :
        Handlers S Call A → Exn → Option Call → Option Exn → World S A → World S A × Tried A
    try_handlers no_handlers e context last w = (w, exhausted last)
    try_handlers (handler_then h hs) e context last w =
        if can_handle h e w
        then after_handler (handle h e context w) (try_handlers hs e context)
        else try_handlers hs e context last w

  -- `_record_success` over `_iter_cached_handlers`.
  unfoldable mutual
    unfolding update_cache

    record_handler : Handler S Call A → A → World S A → World S A
    record_handler (static_value b) a w = w
    record_handler (cached_value n) a w = update_cache n a w
    record_handler (callable f pass_error) a w = w
    record_handler (chain hs) a w = record_success hs a w
    record_handler (custom can f) a w = w

    pub record_success : Handlers S Call A → A → World S A → World S A
    record_success no_handlers a w = w
    record_success (handler_then h hs) a w = record_success hs a (record_handler h a w)

-- FallbackPolicy, which FallbackExecutor copies.
pub record FallbackPolicy (S Call A : Type 0) : Type 0 where
  pub handlers : Handlers S Call A
  pub fallback_on : Option (List ExcClass)
  pub propagate_original_error : Bool
  pub include_context : Bool

module _ {S Call A : Type 0} (x : FallbackPolicy S Call A) where
  -- `_should_fallback`.
  unfoldable pub should_fallback : Exn → Bool
  unfolding isinstance
  should_fallback e = elim x.fallback_on [ none ↦ true | some cs ↦ any (isinstance e) cs ]

  -- `_build_context`, if the policy includes it.
  build_context : Call → Option Call
  build_context c = if x.include_context then some c else none

  -- The end of `execute` after the handlers.
  fallback_result : Exn → World S A × Tried A → World S A × Outcome A
  fallback_result e (w, handled a) = (w, returned a)
  fallback_result e (w, exhausted last) =
      (w, raised (if x.propagate_original_error then e else exhausted_exn))

  after_call : Call → World S A × Outcome A → World S A × Outcome A
  unfolding record_success try_handlers build_context fallback_result should_fallback
  after_call c (w, returned a) = (record_success x.handlers a w, returned a)
  after_call c (w, raised e) =
      if should_fallback e
      then fallback_result e (try_handlers x.handlers e (build_context c) none w)
      else (w, raised e)

  -- `execute`.
  unfoldable pub execute : (Call → S → S × Outcome A) → Call → World S A → World S A × Outcome A
  unfolding after_call outside
  execute func c w = after_call c (outside w (func c w.outer))
