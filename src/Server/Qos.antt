-- ===== src/Server/Qos.antt =====
-- QosHandler of src/aduib_rpc/server/qos/handler.py: the timeout of a request, and the single
-- flight of `_get_or_compute`, where each request goes from one suspension of the event loop to the
-- next. Keys are a type K with a decision.
pub mod Locks
pub mod Flight
use aduib_rpc.Prelude.{
  Bool, List, Option, [], false, get_elem?, if◌then◌else◌, min, negsuc, none, pos, some, suc, true,
  zero, ℕ, ℤ, ◌++◌, ◌∷◌,
}
use aduib_rpc.Prelude.Dict
use aduib_rpc.Resilience.Cache.{Value, none_value}
use aduib_rpc.Resilience.IdempotencyCache
use aduib_rpc.Resilience.IdempotencyCache.{IdempotencyCache}
use aduib_rpc.Resilience.CircuitBreaker.{Outcome, returned, raised}

abbrev pub max_timeout_ms : ℕ
max_timeout_ms = 300000

-- `_resolve_timeout_ms`, on the timeout of the QoS settings.
unfoldable pub resolve_timeout_ms : Option ℤ → Option ℤ
resolve_timeout_ms none = none
resolve_timeout_ms (some (pos n)) = some (pos (min n max_timeout_ms))
resolve_timeout_ms (some (negsuc n)) = some (negsuc n)

-- The timeout of `handle_request`: that of the request, or the default.
unfoldable pub request_timeout_ms : ℤ → Option ℤ → ℤ
unfolding resolve_timeout_ms
request_timeout_ms default qos = elim (resolve_timeout_ms qos) [ none ↦ default | some t ↦ t ]

-- What the handler uses of a Cache, any one: `get` and `set`, at a time, with the handler's ttl.
-- `get` may change the cache, and a value that was set may be gone.
pub record CacheOps (K V C : Type 0) : Type 0 where
  pub get : K → ℕ → C → C × Option V
  pub set : K → V → ℕ → C → C

-- What is not None of a cached value.
some_value : {V : Type 0} → Value V → Option (Value V)
some_value none_value = none
some_value v = some v

-- The default cache, InMemoryIdempotencyCache, with the handler's ttl in microseconds.
unfoldable pub in_memory :
    {K V : Type 0} → Discrete K → ℕ → CacheOps K (Value V) (IdempotencyCache K V)
unfolding some_value
in_memory dec ttl = record {
  get = λ k now c. let (c', v) = IdempotencyCache.get dec k none_value now c in (c', some_value v);
  set = λ k v now c. IdempotencyCache.set dec k v (some (pos ttl)) now c;
}

-- Where a request stands in `_get_or_compute`: before its first read of the cache, before the lock
-- of its key, with the lock and before its second read, in the factory, or at its end. A factory
-- may return None.
pub data Phase (V : Type 0) : Type 0 where
  arrived waiting locked computing : Phase V
  ended : Outcome (Option V) → Phase V

-- `locks` holds for each key that has a lock whether it is taken.
pub record Qos (K V C : Type 0) : Type 0 where
  pub cache : C
  pub locks : List (K × Bool)
  pub requests : List (K × Phase V)

-- A new request, or the next stretch of one that is there, with its time and with what its factory
-- does if it ends in that stretch.
pub data Event (K V : Type 0) : Type 0 where
  arrives : K → Event K V
  goes_on : ℕ → ℕ → Outcome (Option V) → Event K V

unfoldable pub put {ℓ} : {A : Type ℓ} → List A → ℕ → A → List A
put [] i v = []
put (x ∷ xs) zero v = v ∷ xs
put (x ∷ xs) (suc i) v = x ∷ put xs i v

module _ {K V C : Type 0} (dec : Discrete K) (ops : CacheOps K V C) where
  taken_by : Option Bool → Bool
  taken_by none = false
  taken_by (some b) = b

  unfoldable pub is_taken : K → List (K × Bool) → Bool
  unfolding taken_by
  is_taken k ls = taken_by (Dict.get dec k ls)

  -- A lock for a key that has none.
  pub ensure_lock : K → Option Bool → List (K × Bool) → List (K × Bool)
  ensure_lock k none ls = Dict.set dec k false ls
  ensure_lock k (some b) ls = ls

  set_phase : ℕ → K → Phase V → Qos K V C → Qos K V C
  set_phase i k p s = record s { requests = put s.requests i (k, p) }

  -- After the first read: the cached value, or on to the lock.
  after_read : C × Option V → ℕ → K → Qos K V C → Qos K V C
  unfolding set_phase ensure_lock
  after_read (c, some v) i k s = set_phase i k (ended (returned (some v))) (record s { cache = c })
  after_read (c, none) i k s =
      set_phase i k waiting
        (record s { cache = c; locks = ensure_lock k (Dict.get dec k s.locks) s.locks })

  -- After the second read: the cached value and the lock given back, or on to the factory.
  after_check : C × Option V → ℕ → K → Qos K V C → Qos K V C
  unfolding set_phase
  after_check (c, some v) i k s =
      set_phase i k (ended (returned (some v)))
        (record s { cache = c; locks = Dict.set dec k false s.locks })
  after_check (c, none) i k s = set_phase i k computing (record s { cache = c })

  -- The end of the factory: its result is cached, unless it is None.
  store : K → Outcome (Option V) → ℕ → C → C
  store k (returned (some v)) now c = ops.set k v now c
  store k (returned none) now c = c
  store k (raised e) now c = c

  -- A request from one suspension to the next.
  move : ℕ → Outcome (Option V) → ℕ → K → Phase V → Qos K V C → Qos K V C
  unfolding set_phase after_read after_check store
  move now o i k arrived s = after_read (ops.get k now s.cache) i k s
  move now o i k waiting s =
      if is_taken k s.locks
      then s
      else set_phase i k locked (record s { locks = Dict.set dec k true s.locks })
  move now o i k locked s = after_check (ops.get k now s.cache) i k s
  move now o i k computing s =
      set_phase i k (ended o)
        (record s { cache = store k o now s.cache; locks = Dict.set dec k false s.locks })
  move now o i k (ended r) s = s

  move_at : ℕ → Outcome (Option V) → ℕ → Option (K × Phase V) → Qos K V C → Qos K V C
  move_at now o i none s = s
  move_at now o i (some (k, p)) s = move now o i k p s

  unfoldable pub step : Event K V → Qos K V C → Qos K V C
  unfolding move_at move
  step (arrives k) s = record s { requests = s.requests ++ (k, arrived) ∷ [] }
  step (goes_on now i o) s = move_at now o i (get_elem? s.requests i) s

  unfoldable pub run : List (Event K V) → Qos K V C → Qos K V C
  unfolding step
  run [] s = s
  run (e ∷ es) s = run es (step e s)

  -- A new handler on a cache.
  unfoldable pub new_handler : C → Qos K V C
  new_handler c = record { cache = c; locks = []; requests = [] }
