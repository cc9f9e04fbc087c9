-- ===== src/Resilience/RetryPolicy/Attempts.antt =====
-- Which attempts the loop of src/aduib_rpc/resilience/retry_policy.py makes.
use mathlib.Core.Path.{subst, ap₂}
use native.Mathlib.Nat.{add-zero}
use native.Mathlib.Decide.{dec_lt}
use aduib_rpc.Prelude.{
  ℕ, Bool-cases, Option, inl, inr, refl, some, suc, true, zero, ◌≡◌, ◌⊎◌, arith, ◌+◌, ◌<◌, ◌≤◌, ap,
  sym, ◌∙◌, none, ◌-◌, false,
}
use aduib_rpc.Exceptions.{Exn, rpc_instance}
use aduib_rpc.Resilience.RetryPolicy.{
  RetryExecutor, after_attempt, should_retry, attempts, execute, RetryPolicy, init, World, invoke,
  open_exn, is_retryable_error, calls_of, outcome_of, invoke_through,
}
use aduib_rpc.Resilience.CircuitBreaker.{Outcome, returned, raised, CircuitBreaker, open_}
use aduib_rpc.Resilience.CircuitBreaker.Transitions.{call_of_open}

-- The outcome of an attempt is an exception after which the loop goes on.
abbrev pub Retries {ℓ} : {A : Type ℓ} → RetryExecutor → ℕ → Outcome A → Type 0
Retries x attempt (returned a) = ⊥
Retries x attempt (raised e) = should_retry x attempt e ≡ true

Retries-cases {ℓ} :
    {A : Type ℓ} (x : RetryExecutor) (attempt : ℕ) (o : Outcome A)
    → Retries x attempt o ⊎ (¬ Retries x attempt o)
Retries-cases x attempt (returned a) = inr (λ h. h)
Retries-cases x attempt (raised e) = elim (Bool-cases (should_retry x attempt e)) [
  | inl p ↦ inl p
  | inr p ↦ inr (λ h. cc)
]

module _ {S A : Type 0} (x : RetryExecutor) (invoke_once : S → S × Outcome A)
    (pause : ℕ → S → S) where
  -- The state in which attempt n + 1 is made, if the n before it were.
  unfoldable pub before : ℕ → S → S
  before zero s = s
  before (suc n) s = pause (suc n) (invoke_once (before n s)).0

  after_retry :
      (attempt : ℕ) (r : S × Outcome A) (next : Option Exn → S → S × Outcome A)
      → Retries x attempt r.1
      → (e : Exn) × (after_attempt x invoke_once pause attempt r next
          ≡ next (some e) (pause attempt r.0))
  unfolding after_attempt
  after_retry attempt (s, returned a) next h = absurd h
  after_retry attempt (s, raised e) next h = (e, rw h)

  after_stop :
      (attempt : ℕ) (r : S × Outcome A) (next : Option Exn → S → S × Outcome A)
      → ¬ Retries x attempt r.1
      → after_attempt x invoke_once pause attempt r next ≡ r
  unfolding after_attempt
  after_stop attempt (s, returned a) next h = refl
  after_stop attempt (s, raised e) next h = elim (Bool-cases (should_retry x attempt e)) [
    | inl p ↦ absurd (h p)
    | inr p ↦ rw p
  ]

  below_max : (attempt : ℕ) (o : Outcome A) → Retries x attempt o → attempt < x.max_attempts
  unfolding should_retry
  below_max attempt (returned a) h = absurd h
  below_max attempt (raised e) h = ground arith

  -- The loop from attempt k + 1 on stops at some attempt: the attempts before it were retried, and
  -- it is not.
  Stops : ℕ → S → S × Outcome A → Type 0
  Stops k s result =
      (n : ℕ) × (n < x.max_attempts)
      × (result ≡ invoke_once (before n s))
      × ((j : ℕ) → k ≤ j → j < n → Retries x (suc j) (invoke_once (before j s)).1)
      × (¬ Retries x (suc n) (invoke_once (before n s)).1)

  ends_here :
      (left k : ℕ) (last : Option Exn) (s : S)
      → k < x.max_attempts
      → ¬ Retries x (suc k) (invoke_once (before k s)).1
      → Stops k s (attempts x invoke_once pause (suc left) (suc k) last (before k s))
  unfolding attempts Stops
  ends_here left k last s h stops = (
    k,
    h,
    after_stop (suc k) (invoke_once (before k s)) _ stops,
    (λ j a b. absurd (omega arith)),
    stops,
  )

  ends_later :
      (k : ℕ) (s : S) (result : S × Outcome A)
      → Retries x (suc k) (invoke_once (before k s)).1
      → Stops (suc k) s result
      → Stops k s result
  unfolding Stops
  ends_later k s result goes (n, below, same, earlier, last) = (
    n,
    below,
    same,
    (λ j a b. elim (dec_lt k j) [
      | yes p ↦ earlier j p b
      | no p ↦
          let e : j ≡ k = omega arith in
          subst (λ i. Retries x (suc i) (invoke_once (before i s)).1) (sym e) goes
    ]),
    last,
  )

  retried :
      (left k : ℕ) (last : Option Exn) (s : S)
      → Retries x (suc k) (invoke_once (before k s)).1
      → (e : Exn) × (attempts x invoke_once pause (suc left) (suc k) last (before k s)
          ≡ attempts x invoke_once pause left (suc (suc k)) (some e) (before (suc k) s))
  unfolding attempts before
  retried left k last s goes =
      let (e, same) =
        after_retry (suc k) (invoke_once (before k s))
          (attempts x invoke_once pause left (suc k + 1)) goes in
      let next : suc k + 1 ≡ suc (suc k) = omega arith in
      (e, same ∙ ap (λ a. attempts x invoke_once pause left a (some e) (before (suc k) s)) next)

  attempts-Stops :
      (left k : ℕ) (last : Option Exn) (s : S)
      → k + suc left ≡ x.max_attempts
      → Stops k s (attempts x invoke_once pause (suc left) (suc k) last (before k s))
  attempts-Stops zero k last s h = elim (Retries-cases x (suc k) (invoke_once (before k s)).1) [
    | inr stops ↦ ends_here zero k last s (omega arith) stops
    | inl goes ↦ absurd (omega (arith, below_max (suc k) (invoke_once (before k s)).1 goes))
  ]
  attempts-Stops (suc left) k last s h =
      elim (Retries-cases x (suc k) (invoke_once (before k s)).1) [
        | inr stops ↦ ends_here (suc left) k last s (omega arith) stops
        | inl goes ↦
            let (e, same) = retried (suc left) k last s goes in
            ends_later k s _ goes (
              subst (Stops (suc k) s) (sym same)
                (attempts-Stops left (suc k) (some e) s (omega arith)))
      ]

attempts_allowed : (policy : RetryPolicy) → 1 ≤ (init policy).max_attempts
unfolding init
attempts_allowed policy = ground arith

-- With a policy the loop makes at least one and at most `max_attempts` attempts, whatever the
-- function and the sleeps change: every attempt before the last raises an exception that is to be
-- retried, the last one does not, and its state and outcome are the result.
pub execute_lem :
    {S A : Type 0} (policy : RetryPolicy) (invoke_once : S → S × Outcome A) (pause : ℕ → S → S)
    (s : S)
    → let x = init policy in
      (n : ℕ) × (n < x.max_attempts)
      × (execute x invoke_once pause s ≡ invoke_once (before x invoke_once pause n s))
      × ((j : ℕ) → j < n → Retries x (suc j) (invoke_once (before x invoke_once pause j s)).1)
      × (¬ Retries x (suc n) (invoke_once (before x invoke_once pause n s)).1)
unfolding execute Stops before
execute_lem policy invoke_once pause s =
    let x = init policy in
    let some_left : x.max_attempts ≡ suc (x.max_attempts - 1) =
      omega (arith, attempts_allowed policy) in
    let (n, below, same, earlier, last) =
      attempts-Stops x invoke_once pause (x.max_attempts - 1) 0 none s (omega arith) in
    (
      n,
      below,
      ap (λ m. attempts x invoke_once pause m 1 none s) some_left ∙ same,
      (λ j b. earlier j (omega arith) b),
      last,
    )

refused_not_retried : (x : RetryExecutor) (attempt : ℕ) → should_retry x attempt open_exn ≡ false
unfolding should_retry is_retryable_error rpc_instance
refused_not_retried x attempt = ground arith

same_world :
    {A : Type 0} (b : CircuitBreaker) (w : World A)
    → w.breaker ≡ some b
    → ◌≡◌ {A = World A} (record w { breaker = some b; calls = w.calls + 0 }) w
same_world {A} b w h =
    ap₂ {C = World A} (λ g n. record w { breaker = g; calls = n }) (sym h) (add-zero w.calls)

invoke_given :
    {A : Type 0} (x : RetryExecutor) (b : CircuitBreaker) (w : World A)
    → w.breaker ≡ some b
    → x.respect_circuit_breaker ≡ true
    → invoke x w ≡ invoke_through b w
unfolding invoke
invoke_given x b w given respected = ground arith

invoke_of_open :
    {A : Type 0} (x : RetryExecutor) (at : ℕ) (b : CircuitBreaker) (w : World A)
    → w.breaker ≡ some b
    → x.respect_circuit_breaker ≡ true
    → b.state ≡ open_
    → b.opened_at ≡ some at
    → 0 < b.timeout_us
    → w.now < at + b.timeout_us
    → invoke x w ≡ (w, raised open_exn)
unfolding invoke_through open_exn
invoke_of_open {A} x at b w given respected o t p early =
    let (e, same) = call_of_open w.now w.now at (w.outcome w.calls) b o t p early in
    invoke_given x b w given respected
    ∙ ap {B = World A × Outcome A}
        (λ r. (record w { breaker = some r.0; calls = w.calls + calls_of r.1 }, outcome_of r.1))
        same
    ∙ ap {B = World A × Outcome A} (λ v. (v, raised open_exn)) (same_world b w given)

-- Through an open breaker whose timeout has not passed the function is not called at all: the
-- error of the breaker is given at once, with no retry, and the breaker stays as it was.
pub execute_of_open :
    {A : Type 0} (policy : RetryPolicy) (at : ℕ) (b : CircuitBreaker) (w : World A)
    (pause : ℕ → World A → World A)
    → w.breaker ≡ some b
    → policy.respect_circuit_breaker ≡ true
    → b.state ≡ open_
    → b.opened_at ≡ some at
    → 0 < b.timeout_us
    → w.now < at + b.timeout_us
    → let x = init policy in execute x (invoke x) pause w ≡ (w, raised open_exn)
unfolding execute attempts init
execute_of_open policy at b w pause given respected o t p early =
    let x = init policy in
    let some_left : x.max_attempts ≡ suc (x.max_attempts - 1) =
      omega (arith, attempts_allowed policy) in
    let respects : x.respect_circuit_breaker ≡ true = respected in
    let next = attempts x (invoke x) pause (x.max_attempts - 1) (1 + 1) in
    ap (λ m. attempts x (invoke x) pause m 1 none w) some_left
    ∙ ap (λ r. after_attempt x (invoke x) pause 1 r next)
        (invoke_of_open x at b w given respects o t p early)
    ∙ after_stop x (invoke x) pause 1 (w, raised open_exn) next (λ h. cc (refused_not_retried x 1))
