-- ===== src/Resilience/RateLimiter/Waiting.antt =====
-- `acquire_or_wait` of src/aduib_rpc/resilience/rate_limiter.py.
use aduib_rpc.Prelude.{
  ℕ, List, Option, [], if◌then◌else◌, leb, min, none, some, ℤ, ◌*◌, ◌+◌, ◌-◌, ◌∷◌, arith, ◌≡◌, ◌≢◌,
  ◌≤◌, ◌⊎◌, Bool-cases, false, inl, inr, pos, refl, suc, ◌<◌, ap, gt→leb, true, ◌∙◌,
}
use aduib_rpc.Resilience.RateLimiter.{
  RateLimiter, try_acquire, prepare_wait, normalize_tokens, try_token_bucket, refill, token_bucket,
}
use aduib_rpc.Resilience.RateLimiter.TokenBucket.{
  try_acquire_of_bucket, try_token_bucket_fixed, wait_suffices,
}

-- One round of the loop: the clock at the attempt and at the test of the deadline, and what other
-- tasks do to the limiter while this one waits.
pub record Round : Type 0 where
  pub tried_at : ℕ
  pub checked_at : ℕ
  pub meanwhile : RateLimiter → RateLimiter

-- The result: the tokens, the RateLimitedError with its `retry_after_ms`, or the wait goes on.
pub data Waited : Type 0 where
  acquired_tokens : Waited
  rate_limited : ℕ → Waited
  still_waiting : Waited

-- The wait at the end of a round: the event is cleared if there is time left to wait for.
wait_round : ℕ → ℕ → ℕ → RateLimiter → RateLimiter
unfolding prepare_wait
wait_round deadline now wait_ms l =
    if leb (min (deadline - now) (wait_ms * 1000)) 0 then l else prepare_wait l

-- What follows a failed attempt: `rest` is the loop from the next round on.
after_refusal :
    ℕ
    → ℕ
    → Round
    → Option ℕ
    → RateLimiter
    → (RateLimiter → RateLimiter × Waited)
    → RateLimiter × Waited
unfolding wait_round
after_refusal timeout_ms deadline r none l rest = (l, rate_limited 0)
after_refusal timeout_ms deadline r (some w) l rest =
    if leb timeout_ms 0
    then (l, rate_limited w)
    else if leb deadline r.checked_at
    then (l, rate_limited w)
    else rest (r.meanwhile (wait_round deadline r.checked_at w l))

-- The loop of `acquire_or_wait`, over the rounds that the clock and the other tasks allow.
wait_loop : ℕ → ℕ → ℕ → List Round → RateLimiter → RateLimiter × Waited
unfolding after_refusal
wait_loop tokens timeout_ms deadline [] l = (l, still_waiting)
wait_loop tokens timeout_ms deadline (r ∷ rs) l =
    let a = try_acquire tokens r.tried_at l in
    let refused =
      after_refusal timeout_ms deadline r a.wait_ms a.limiter
        (wait_loop tokens timeout_ms deadline rs) in
    if a.acquired then (a.limiter, acquired_tokens) else refused

-- `acquire_or_wait`, called at the clock reading `now`; `none` is the ValueError.
unfoldable pub acquire_or_wait : ℤ → ℕ → List Round → RateLimiter → Option (RateLimiter × Waited)
unfolding wait_loop
acquire_or_wait tokens now rounds l = elim (normalize_tokens tokens) [
  | none ↦ none
  | some n ↦ some (wait_loop n l.wait_timeout_ms (now + l.wait_timeout_ms * 1000) rounds l)
]

-- Some round tests the deadline when it has passed.
abbrev pub Expires : ℕ → List Round → Type 0
Expires deadline [] = ⊥
Expires deadline (r ∷ rs) = (deadline ≤ r.checked_at) ⊎ Expires deadline rs

after_refusal_ends :
    (timeout_ms deadline : ℕ) (r : Round) (wait : Option ℕ) (l : RateLimiter)
    (rest : RateLimiter → RateLimiter × Waited)
    → (deadline ≤ r.checked_at) ⊎ ((l' : RateLimiter) → (rest l').1 ≢ still_waiting)
    → (after_refusal timeout_ms deadline r wait l rest).1 ≢ still_waiting
unfolding after_refusal
after_refusal_ends timeout_ms deadline r none l rest h = λ e. cc
after_refusal_ends timeout_ms deadline r (some w) l rest (inl late) = ground arith
after_refusal_ends timeout_ms deadline r (some w) l rest (inr ends) =
    ground (arith, ends (r.meanwhile (wait_round deadline r.checked_at w l)))

wait_loop_ends :
    (tokens timeout_ms deadline : ℕ) (rs : List Round) (l : RateLimiter)
    → Expires deadline rs
    → (wait_loop tokens timeout_ms deadline rs l).1 ≢ still_waiting
unfolding wait_loop
wait_loop_ends tokens timeout_ms deadline [] l h = absurd h
wait_loop_ends tokens timeout_ms deadline (r ∷ rs) l h =
    let a = try_acquire tokens r.tried_at l in
    let later : (deadline ≤ r.checked_at)
        ⊎ ((l' : RateLimiter) → (wait_loop tokens timeout_ms deadline rs l').1 ≢ still_waiting) =
      elim h [
        | inl late ↦ inl late
        | inr more ↦ inr (λ l'. wait_loop_ends tokens timeout_ms deadline rs l' more)
      ] in
    elim (Bool-cases a.acquired) [
      | inl p ↦ rw p (λ e. cc)
      | inr p ↦ rw p (
          after_refusal_ends timeout_ms deadline r a.wait_ms a.limiter
            (wait_loop tokens timeout_ms deadline rs) later)
    ]

-- A call with a valid number of tokens ends, in the tokens or in the error, once some round tests
-- its deadline, `wait_timeout_ms` after the call, when that has passed, whatever the algorithm is
-- and whatever other tasks do between the rounds.
pub acquire_or_wait_ends :
    (tokens now : ℕ) (rounds : List Round) (l : RateLimiter)
    → Expires (now + l.wait_timeout_ms * 1000) rounds
    → (l' : RateLimiter) × (w : Waited) × (acquire_or_wait (pos (suc tokens)) now rounds l
        ≡ some (l', w))
      × (w ≢ still_waiting)
unfolding acquire_or_wait normalize_tokens
acquire_or_wait_ends tokens now rounds l h =
    let deadline = now + l.wait_timeout_ms * 1000 in
    let (l', w) = wait_loop (suc tokens) l.wait_timeout_ms deadline rounds l in
    (l', w, refl, wait_loop_ends (suc tokens) l.wait_timeout_ms deadline rounds l h)

prepare_wait_neutral :
    (tokens now deadline at w : ℕ) (l : RateLimiter)
    → (try_token_bucket tokens now (wait_round deadline at w l)).acquired
      ≡ (try_token_bucket tokens now l).acquired
unfolding try_token_bucket refill wait_round
prepare_wait_neutral tokens now deadline at w l = ground arith

wait_round_kind :
    (deadline at w : ℕ) (l : RateLimiter) → (wait_round deadline at w l).algorithm ≡ l.algorithm
unfolding wait_round
wait_round_kind deadline at w l = ground arith

round_acquires :
    (tokens timeout_ms deadline : ℕ) (r : Round) (rs : List Round) (l : RateLimiter)
    → (try_acquire tokens r.tried_at l).acquired ≡ true
    → wait_loop tokens timeout_ms deadline (r ∷ rs) l
      ≡ ((try_acquire tokens r.tried_at l).limiter, acquired_tokens)
unfolding wait_loop
round_acquires tokens timeout_ms deadline r rs l h = rw h

round_waits :
    (tokens timeout_ms deadline w : ℕ) (r : Round) (rs : List Round) (l : RateLimiter)
    → (try_acquire tokens r.tried_at l).acquired ≡ false
    → (try_acquire tokens r.tried_at l).wait_ms ≡ some w
    → 0 < timeout_ms
    → r.checked_at < deadline
    → wait_loop tokens timeout_ms deadline (r ∷ rs) l
      ≡ wait_loop tokens timeout_ms deadline rs (
          r.meanwhile
            (wait_round deadline r.checked_at w (try_acquire tokens r.tried_at l).limiter))
unfolding wait_loop
round_waits tokens timeout_ms deadline w r rs l h k timed early =
    rw (h, k, after_refusal, gt→leb timeout_ms 0 timed, gt→leb deadline r.checked_at early)

-- A token bucket's waiting call that is refused at first, with time left and a wait of `w`
-- milliseconds, gets its tokens in its second round if that is made `w` milliseconds after the first
-- attempt and no other task took tokens meanwhile.
pub acquire_or_wait_second :
    (tokens now w : ℕ) (first second : Round) (rounds : List Round) (l : RateLimiter)
    → l.algorithm ≡ token_bucket
    → l.bucket_last ≤ first.tried_at
    → (try_token_bucket (suc tokens) first.tried_at l).acquired ≡ false
    → (try_token_bucket (suc tokens) first.tried_at l).wait_ms ≡ some w
    → 0 < l.wait_timeout_ms
    → first.checked_at < now + l.wait_timeout_ms * 1000
    → first.tried_at + w * 1000 ≤ second.tried_at
    → ((l' : RateLimiter) → first.meanwhile l' ≡ l')
    → (l' : RateLimiter) × (acquire_or_wait (pos (suc tokens)) now (first ∷ second ∷ rounds) l
        ≡ some (l', acquired_tokens))
unfolding acquire_or_wait normalize_tokens
acquire_or_wait_second tokens now w first second rounds l kind last refused wait timed early spaced
      alone =
    let deadline = now + l.wait_timeout_ms * 1000 in
    let a = try_token_bucket (suc tokens) first.tried_at l in
    let same = try_acquire_of_bucket (suc tokens) first.tried_at l kind in
    let l₂ = wait_round deadline first.checked_at w a.limiter in
    let kind₂ : l₂.algorithm ≡ token_bucket =
      wait_round_kind deadline first.checked_at w a.limiter
      ∙ (try_token_bucket_fixed (suc tokens) first.tried_at l).0
      ∙ kind in
    let got : (try_acquire (suc tokens) second.tried_at l₂).acquired ≡ true =
      ap (λ b. b.acquired) (try_acquire_of_bucket (suc tokens) second.tried_at l₂ kind₂)
      ∙ prepare_wait_neutral (suc tokens) second.tried_at deadline first.checked_at w a.limiter
      ∙ wait_suffices (suc tokens) first.tried_at second.tried_at w l last refused wait spaced in
    (
      (try_acquire (suc tokens) second.tried_at l₂).limiter,
      ap some (
          round_waits (suc tokens) l.wait_timeout_ms deadline w first (second ∷ rounds) l
            (ap (λ b. b.acquired) same ∙ refused) (ap (λ b. b.wait_ms) same ∙ wait) timed early
          ∙ ap (wait_loop (suc tokens) l.wait_timeout_ms deadline (second ∷ rounds))
              (alone _ ∙ ap (λ b. wait_round deadline first.checked_at w b.limiter) same)
          ∙ round_acquires (suc tokens) l.wait_timeout_ms deadline second rounds l₂ got),
    )
