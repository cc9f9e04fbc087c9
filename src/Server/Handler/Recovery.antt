-- ===== src/Server/Handler/Recovery.antt =====
-- What the fallback of a ResilienceHandler does about its breaker and its cached values:
-- src/aduib_rpc/server/interceptors/resilience.py with circuit_breaker.py and fallback.py of
-- src/aduib_rpc/resilience.
use aduib_rpc.Prelude.{ap, ◌∙◌, arith, none, some, ℕ, ◌≡◌, Option, ◌+◌, ◌<◌}
use aduib_rpc.Resilience.CircuitBreaker.{
  CircuitBreaker, Outcome, returned, raised, open_, CallResult, value, propagated, refused, call,
}
use aduib_rpc.Resilience.Fallback
use aduib_rpc.Resilience.Fallback.{World, FallbackPolicy}
use aduib_rpc.Resilience.Fallback.Execution.{execute_returned}
use aduib_rpc.Server.Handler.{handle, open_exn, attempt}
use aduib_rpc.Exceptions.{Exn}

-- The result of a breaker's call, as a caller sees it: a refusal is an exception.
abbrev pub as_outcome : {A : Type 0} → CallResult A → Outcome A
as_outcome (value a) = returned a
as_outcome (propagated e) = raised e
as_outcome (refused e) = raised open_exn

module _ {S Call A : Type 0} (begun finished : ℕ) (handler : Call → S → S × Outcome A)
    (c : Call) where
  -- Without a fallback `handle` is `CircuitBreaker.call` of the handler.
  pub handle-call :
      (b : CircuitBreaker) (w : World S A)
      → let r = handle begun finished none handler c (some b) w in
        let (b', o) = call begun finished (handler c w.outer).1 b in
        (r.breaker ≡ some b') × (r.outcome ≡ as_outcome o)
  unfolding handle call
  handle-call b w = ground arith

  -- What an open breaker refuses before its timeout goes to the fallback executor, if there is one.
  handle_refused :
      (at : ℕ) (x : FallbackPolicy S Call A) (b : CircuitBreaker) (w : World S A)
      → b.state ≡ open_
      → b.opened_at ≡ some at
      → 0 < b.timeout_us
      → begun < at + b.timeout_us
      → let bare = handle begun finished none handler c (some b) w in
        let r = handle begun finished (some x) handler c (some b) w in
        let (w', o) = Fallback.execute x handler c w in
        ((bare.breaker ≡ some b) × (bare.world ≡ w) × (bare.outcome ≡ raised open_exn))
        × ((r.breaker ≡ some b) × (r.world ≡ w') × (r.outcome ≡ o))
  unfolding handle
  handle_refused at x b w s t p early = ground arith

  -- While a breaker is open, before its timeout, a handler without a fallback executor does not run,
  -- and what comes out is the breaker's exception. With a fallback executor it does run: one that
  -- returns has its value returned and its effects kept, as though there were no breaker, and the
  -- breaker hears of neither.
  pub handle_bypasses_breaker :
      (at : ℕ) (x : FallbackPolicy S Call A) (b : CircuitBreaker) (w : World S A) (a : A)
      → b.state ≡ open_
      → b.opened_at ≡ some at
      → 0 < b.timeout_us
      → begun < at + b.timeout_us
      → (handler c w.outer).1 ≡ returned a
      → let bare = handle begun finished none handler c (some b) w in
        let r = handle begun finished (some x) handler c (some b) w in
        ((bare.breaker ≡ some b) × (bare.world ≡ w) × (bare.outcome ≡ raised open_exn))
        × ((r.breaker ≡ some b)
            × (r.world.outer ≡ (handler c w.outer).0)
            × (r.outcome ≡ returned a))
  handle_bypasses_breaker at x b w a s t p early e =
      let (bare, (breaker, world, outcome)) = handle_refused at x b w s t p early in
      let (once, same) = execute_returned x handler c a w e in
      (bare, (breaker, ap (λ v. v.outer) world ∙ once, outcome ∙ same))

  -- A failure of the handler goes to the fallback executor, which runs the handler a second time,
  -- in the state that the first run left, and of which the breaker hears nothing.
  pub handle_retries :
      (x : FallbackPolicy S Call A) (b : Option CircuitBreaker) (w : World S A) (e : Exn)
      → (attempt begun finished handler c b w).outcome ≡ raised e
      → let first = attempt begun finished handler c b w in
        let r = handle begun finished (some x) handler c b w in
        let (w', o) = Fallback.execute x handler c first.world in
        (r.breaker ≡ first.breaker) × (r.world ≡ w') × (r.outcome ≡ o)
  unfolding handle
  handle_retries x b w e h = ground arith
