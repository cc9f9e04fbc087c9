-- ===== src/Resilience/Cache.antt =====
-- src/aduib_rpc/resilience/cache.py: InMemoryCache, over any keys with a decidable equality. The
-- store is the dictionary of the code. A method takes the clock, in microseconds, once, and returns
-- the store that it leaves with its result.
pub mod Reads
use aduib_rpc.Prelude.{
  ℕ, Bool, Option, at_least, false, leb, none, some, ℤ, ◌+◌, List, [], if◌then◌else◌, pos, true,
  ◌+ℤ◌, ◌-◌, ◌∷◌,
}
use aduib_rpc.Prelude.Dict

-- A cached value: None, an int, or anything else.
pub data Value (V : Type 0) : Type 0 where
  none_value : Value V
  int : ℤ → Value V
  object : V → Value V

pub record Entry (V : Type 0) : Type 0 where
  pub value : Value V
  pub expires_at : Option ℕ

-- What `ttl` gives.
pub data Remaining : Type 0 where
  missing : Remaining
  endless : Remaining
  remaining : ℕ → Remaining

-- The test `expires_at is not None and expires_at <= now`.
unfoldable pub expired : Option ℕ → ℕ → Bool
expired none now = false
expired (some t) now = leb t now

-- `InMemoryCache._expires_at`.
unfoldable pub expires_at : Option ℤ → ℕ → Option ℕ
expires_at none now = none
expires_at (some ttl) now = some (now + at_least 0 ttl)

abbrev pub Store : Type 0 → Type 0 → Type 0
Store K V = List (K × Entry V)

module _ {K V : Type 0} (dec : Discrete K) where
  -- `_exists_unlocked`: an expired entry is dropped.
  exists_entry : K → ℕ → Store K V → Option (Entry V) → Store K V × Bool
  exists_entry key now store none = (store, false)
  exists_entry key now store (some e) =
      if expired e.expires_at now then (Dict.pop dec key store, false) else (store, true)

  unfoldable pub exists_unlocked : K → ℕ → Store K V → Store K V × Bool
  unfolding exists_entry expired
  exists_unlocked key now store = exists_entry key now store (Dict.get dec key store)

  -- `_get_unlocked`.
  get_entry : K → Value V → ℕ → Store K V → Option (Entry V) → Store K V × Value V
  get_entry key default now store none = (store, default)
  get_entry key default now store (some e) =
      if expired e.expires_at now then (Dict.pop dec key store, default) else (store, e.value)

  unfoldable pub get : K → Value V → ℕ → Store K V → Store K V × Value V
  unfolding get_entry expired
  get key default now store = get_entry key default now store (Dict.get dec key store)

  -- `set`.
  unfoldable pub set : K → Value V → Option ℤ → ℕ → Store K V → Store K V
  unfolding expires_at
  set key value ttl now store =
      Dict.set dec key (record { value = value; expires_at = expires_at ttl now }) store

  -- `add`.
  unfoldable pub add : K → Value V → Option ℤ → ℕ → Store K V → Store K V × Bool
  add key value ttl now store =
      let (store', there) = exists_unlocked key now store in
      if there then (store', false) else (set key value ttl now store', true)

  -- `delete`: whether something was there, expired or not.
  unfoldable pub delete : K → Store K V → Store K V × Bool
  delete key store =
      (Dict.pop dec key store, elim (Dict.get dec key store) [ none ↦ false | some e ↦ true ])

  -- `clear`, and `close`.
  unfoldable pub clear : Store K V → Store K V
  clear store = []

  -- `get_many`: a value that is None is kept only if its key exists.
  keep_found : Value V → Store K V × Bool → Store K V → Store K V × Bool
  keep_found none_value r store = r
  keep_found (int n) r store = (store, true)
  keep_found (object v) r store = (store, true)

  unfoldable pub get_many : List K → ℕ → Store K V → Store K V × List (K × Value V)
  unfolding keep_found
  get_many [] now store = (store, [])
  get_many (key ∷ keys) now store =
      let (store₁, value) = get key none_value now store in
      let (store₂, found) = keep_found value (exists_unlocked key now store₁) store₁ in
      let (store₃, rest) = get_many keys now store₂ in
      (store₃, if found then (key, value) ∷ rest else rest)

  -- `set_many`.
  unfoldable pub set_many : List (K × Value V) → Option ℤ → ℕ → Store K V → Store K V
  set_many [] ttl now store = store
  set_many ((key, value) ∷ items) ttl now store =
      set_many items ttl now (set key value ttl now store)

  -- `delete_many`.
  unfoldable pub delete_many : List K → Store K V → Store K V × ℕ
  delete_many [] store = (store, 0)
  delete_many (key ∷ keys) store =
      let (store₁, deleted) = delete key store in
      let (store₂, count) = delete_many keys store₁ in
      (store₂, if deleted then count + 1 else count)

  -- `contains`.
  unfoldable pub contains : K → ℕ → Store K V → Store K V × Bool
  contains key now store = exists_unlocked key now store

  -- `ttl`: missing, without an end, or what remains.
  ttl_at : K → ℕ → Store K V → Option ℕ → Store K V × Remaining
  ttl_at key now store none = (store, endless)
  ttl_at key now store (some t) =
      if leb t now then (Dict.pop dec key store, missing) else (store, remaining (t - now))

  ttl_entry : K → ℕ → Store K V → Option (Entry V) → Store K V × Remaining
  ttl_entry key now store none = (store, missing)
  ttl_entry key now store (some e) = ttl_at key now store e.expires_at

  unfoldable pub ttl : K → ℕ → Store K V → Store K V × Remaining
  unfolding ttl_entry ttl_at
  ttl key now store = ttl_entry key now store (Dict.get dec key store)

  -- `incr`: `none` is the ValueError. A new counter starts at 0; an old one keeps its expiry unless
  -- a ttl is given.
  incr_from : K → ℤ → Option ℤ → ℕ → Store K V → ℤ → Option ℕ → Store K V × Option ℤ
  incr_from key delta ttl_s now store n at =
      let at' : Option ℕ = elim ttl_s [ none ↦ at | some t ↦ expires_at (some t) now ] in
      (
        Dict.set dec key (record { value = int (n +ℤ delta); expires_at = at' }) store,
        some (n +ℤ delta),
      )

  incr_entry : K → ℤ → Option ℤ → ℕ → Store K V → Value V → Option ℕ → Store K V × Option ℤ
  unfolding incr_from
  incr_entry key delta ttl_s now store none_value at = (store, none)
  incr_entry key delta ttl_s now store (object v) at = (store, none)
  incr_entry key delta ttl_s now store (int n) at = incr_from key delta ttl_s now store n at

  unfoldable pub incr : K → ℤ → Option ℤ → ℕ → Store K V → Store K V × Option ℤ
  unfolding incr_from incr_entry
  incr key delta ttl_s now store =
      let (store', there) = exists_unlocked key now store in
      if there
      then elim (Dict.get dec key store') [
        | none ↦ incr_from key delta ttl_s now store' (pos 0) none
        | some e ↦ incr_entry key delta ttl_s now store' e.value e.expires_at
      ]
      else incr_from key delta ttl_s now store' (pos 0) (expires_at ttl_s now)
