-- ===== src/Server/Qos/Flight.antt =====
-- How many requests of one key are in the factory of QosHandler at a time:
-- src/aduib_rpc/server/qos/handler.py.
use mathlib.Core.Logic.{if_pos, if_neg}
use aduib_rpc.Prelude.{
  Bool, List, Option, [], arith, false, get_elem?, some, true, ℕ, ◌+◌, ◌∷◌, ◌≡◌, if◌then◌else◌,
  none, refl, ◌≤◌,
}
use aduib_rpc.Prelude.Dict
use aduib_rpc.Resilience.CircuitBreaker.{Outcome, returned}
use aduib_rpc.Server.Qos.{
  CacheOps, Phase, arrived, waiting, locked, computing, ended, Qos, is_taken, taken_by, move,
  after_check, Event, new_handler, set_phase, step, after_read, move_at, run, arrives, goes_on,
}
use aduib_rpc.Server.Qos.Locks.{
  inside, inside_of, count_inside, count_inside-append, as_number, at_most_one, one_taken,
  ensure_taken, count_inside-le, inside_self, lock_balance, balance,
}

module _ {K V C : Type 0} (dec : Discrete K) (ops : CacheOps K V C) where
  -- The lock of a key is taken exactly while one request of the key is inside.
  unfoldable pub IsExclusive : Qos K V C → Type 0
  IsExclusive s = (q : K) → count_inside dec q s.requests ≡ as_number (is_taken dec ops q s.locks)

  was_taken :
      (i : ℕ) (k : K) (p : Phase V) (s : Qos K V C)
      → get_elem? s.requests i ≡ some (k, p)
      → IsExclusive s
      → inside p ≤ as_number (is_taken dec ops k s.locks)
  unfolding IsExclusive
  was_taken i k p s at h =
      omega (arith, h k, count_inside-le dec ops k (k, p) s.requests i at, inside_self dec ops k p)

  -- A request that leaves gives the lock back.
  released :
      (p : Phase V) (i : ℕ) (k : K) (s : Qos K V C)
      → get_elem? s.requests i ≡ some (k, p)
      → IsExclusive s
      → (r : Outcome (Option V)) → inside p ≡ 1
      → as_number false + inside p ≡ as_number (is_taken dec ops k s.locks) + inside (ended r)
  unfolding as_number inside
  released p i k s at h r e =
      one_taken (is_taken dec ops k s.locks) (inside p) e (was_taken i k p s at h)

  same_inside :
      (q k : K) (n : ℕ)
      → n + inside_of {V = V} dec q (k, locked) ≡ n + inside_of {V = V} dec q (k, computing)
  unfolding inside_of inside
  same_inside q k n = refl

  free_lock :
      (k : K) (ls : List (K × Bool))
      → is_taken dec ops k ls ≡ false
      → as_number true + inside {V = V} waiting
        ≡ as_number (is_taken dec ops k ls) + inside {V = V} locked
  unfolding inside as_number
  free_lock k ls e = rw e refl

  new_inside : (q k : K) → inside_of {V = V} dec q (k, arrived) ≡ 0
  unfolding inside_of inside
  new_inside q k = elim (dec k q) [ yes p ↦ if_pos _ p 0 0 | no p ↦ if_neg _ p 0 0 ]

  after_read-IsExclusive :
      (o : C × Option V) (i : ℕ) (k : K) (s : Qos K V C)
      → get_elem? s.requests i ≡ some (k, arrived)
      → IsExclusive s
      → IsExclusive (after_read dec ops o i k s)
  unfolding IsExclusive after_read set_phase inside_of inside
  after_read-IsExclusive (c, some v) i k s at h q =
      balance dec ops q k arrived (ended (returned (some v))) i s.requests
        (is_taken dec ops q s.locks) (is_taken dec ops q s.locks) at (h q) refl
  after_read-IsExclusive (c, none) i k s at h q =
      rw (ensure_taken dec ops q k (Dict.get dec k s.locks) s.locks refl) (
        balance dec ops q k arrived waiting i s.requests (is_taken dec ops q s.locks)
          (is_taken dec ops q s.locks) at (h q) refl)

  after_check-IsExclusive :
      (o : C × Option V) (i : ℕ) (k : K) (s : Qos K V C)
      → get_elem? s.requests i ≡ some (k, locked)
      → IsExclusive s
      → IsExclusive (after_check dec ops o i k s)
  unfolding IsExclusive after_check set_phase inside
  after_check-IsExclusive (c, some v) i k s at h q =
      balance dec ops q k locked (ended (returned (some v))) i s.requests
        (is_taken dec ops q s.locks) (is_taken dec ops q (Dict.set dec k false s.locks)) at (h q)
        (lock_balance dec ops q k false locked (ended (returned (some v))) s.locks
          (released locked i k s at h (returned (some v)) refl))
  after_check-IsExclusive (c, none) i k s at h q =
      balance dec ops q k locked computing i s.requests (is_taken dec ops q s.locks)
        (is_taken dec ops q s.locks) at (h q)
        (same_inside q k (as_number (is_taken dec ops q s.locks)))

  end-IsExclusive :
      (now : ℕ) (o : Outcome (Option V)) (i : ℕ) (k : K) (s : Qos K V C)
      → get_elem? s.requests i ≡ some (k, computing)
      → IsExclusive s
      → IsExclusive (move dec ops now o i k computing s)
  unfolding IsExclusive move set_phase inside
  end-IsExclusive now o i k s at h q =
      balance dec ops q k computing (ended o) i s.requests (is_taken dec ops q s.locks)
        (is_taken dec ops q (Dict.set dec k false s.locks)) at (h q)
        (lock_balance dec ops q k false computing (ended o) s.locks
          (released computing i k s at h o refl))

  lock-IsExclusive :
      (t : Bool) (i : ℕ) (k : K) (s : Qos K V C)
      → is_taken dec ops k s.locks ≡ t
      → get_elem? s.requests i ≡ some (k, waiting)
      → IsExclusive s
      → IsExclusive (
          if t
          then s
          else set_phase dec ops i k locked (record s { locks = Dict.set dec k true s.locks }))
  unfolding IsExclusive set_phase
  lock-IsExclusive true i k s e at h q = h q
  lock-IsExclusive false i k s e at h q =
      balance dec ops q k waiting locked i s.requests (is_taken dec ops q s.locks)
        (is_taken dec ops q (Dict.set dec k true s.locks)) at (h q)
        (lock_balance dec ops q k true waiting locked s.locks (free_lock k s.locks e))

  move-IsExclusive :
      (now : ℕ) (o : Outcome (Option V)) (i : ℕ) (k : K) (p : Phase V) (s : Qos K V C)
      → get_elem? s.requests i ≡ some (k, p)
      → IsExclusive s
      → IsExclusive (move dec ops now o i k p s)
  unfolding move
  move-IsExclusive now o i k arrived s at h =
      after_read-IsExclusive (ops.get k now s.cache) i k s at h
  move-IsExclusive now o i k waiting s at h =
      lock-IsExclusive (is_taken dec ops k s.locks) i k s refl at h
  move-IsExclusive now o i k locked s at h =
      after_check-IsExclusive (ops.get k now s.cache) i k s at h
  move-IsExclusive now o i k computing s at h = end-IsExclusive now o i k s at h
  move-IsExclusive now o i k (ended r) s at h = h

  move_at-IsExclusive :
      (now : ℕ) (o : Outcome (Option V)) (i : ℕ) (r : Option (K × Phase V)) (s : Qos K V C)
      → get_elem? s.requests i ≡ r
      → IsExclusive s
      → IsExclusive (move_at dec ops now o i r s)
  unfolding move_at
  move_at-IsExclusive now o i none s at h = h
  move_at-IsExclusive now o i (some (k, p)) s at h = move-IsExclusive now o i k p s at h

  pub step-IsExclusive :
      (e : Event K V) (s : Qos K V C) → IsExclusive s → IsExclusive (step dec ops e s)
  unfolding step IsExclusive
  step-IsExclusive (arrives k) s h q =
      omega (arith, h q, count_inside-append dec q (k, arrived) s.requests, new_inside q k)
  step-IsExclusive (goes_on now i o) s h q =
      move_at-IsExclusive now o i (get_elem? s.requests i) s refl h q

  pub run-IsExclusive :
      (es : List (Event K V)) (s : Qos K V C) → IsExclusive s → IsExclusive (run dec ops es s)
  unfolding run
  run-IsExclusive [] s h = h
  run-IsExclusive (e ∷ es) s h = run-IsExclusive es (step dec ops e s) (step-IsExclusive e s h)

  pub new-IsExclusive : (c : C) → IsExclusive (new_handler dec ops c)
  unfolding IsExclusive new_handler count_inside is_taken taken_by Dict.get as_number
  new-IsExclusive c q = refl

  -- Of the requests of a key at most one is inside, with the lock of the key or in the factory, and
  -- the lock of a key is taken exactly while there is one: after any stretches of any requests on a
  -- new handler, whatever its cache answers and forgets.
  pub run_exclusive :
      (c : C) (es : List (Event K V)) (q : K)
      → let s = run dec ops es (new_handler dec ops c) in
        (count_inside dec q s.requests ≤ 1)
        × (count_inside dec q s.requests ≡ as_number (is_taken dec ops q s.locks))
  unfolding IsExclusive
  run_exclusive c es q =
      let e = run-IsExclusive es (new_handler dec ops c) (new-IsExclusive c) q in
      (at_most_one _ _ e, e)
