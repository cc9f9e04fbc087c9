-- ===== src/Resilience/IdempotencyCache.antt =====
-- src/aduib_rpc/resilience/cache.py: InMemoryIdempotencyCache, over any keys with a decidable
-- equality. The entries are those of the OrderedDict, the least recently used first; times are
-- microseconds of the wall clock, read once by a method.
pub mod Size
pub mod Eviction
use aduib_rpc.Prelude.{
  ℕ, Bool, List, Option, [], at_least, false, if◌then◌else◌, leb, length, none, not, pos, some,
  true, ℤ, ◌&&◌, ◌*◌, ◌++◌, ◌+ℤ◌, ◌+◌, ◌-◌, ◌∷◌,
}
use aduib_rpc.Prelude.Dict
use aduib_rpc.Resilience.Cache.{
  Value, Entry, Store, Remaining, expired, int, object, endless, none_value, missing, remaining,
}

pub record IdempotencyCache (K V : Type 0) : Type 0 where
  pub entries : Store K V
  pub max_size : ℕ
  pub ttl_us : ℕ

-- `__init__`; the ttl is a whole number of seconds.
unfoldable pub init : {K V : Type 0} → ℤ → ℤ → IdempotencyCache K V
init max_size ttl_seconds = record {
  entries = [];
  max_size = at_least 1 max_size;
  ttl_us = at_least 1 ttl_seconds * 1000000;
}

-- `popitem(last=False)`.
drop_first : {A : Type 0} → List A → List A
drop_first [] = []
drop_first (x ∷ xs) = xs

module _ {K V : Type 0} (dec : Discrete K) where
  -- `_expires_at`.
  unfoldable pub expiry : IdempotencyCache K V → Option ℤ → ℕ → Option ℕ
  expiry c none now = some (now + c.ttl_us)
  expiry c (some ttl) now = some (now + at_least 0 ttl)

  -- `move_to_end` of a key with its entry.
  move_to_end : K → Entry V → Store K V → Store K V
  move_to_end key e m = Dict.pop dec key m ++ (key, e) ∷ []

  -- `get`, and `_get_unlocked`.
  get_entry :
      K → Value V → ℕ → IdempotencyCache K V → Option (Entry V) → IdempotencyCache K V × Value V
  unfolding move_to_end
  get_entry key default now c none = (c, default)
  get_entry key default now c (some e) =
      if expired e.expires_at now
      then (record c { entries = Dict.pop dec key c.entries }, default)
      else (record c { entries = move_to_end key e c.entries }, e.value)

  unfoldable pub get : K → Value V → ℕ → IdempotencyCache K V → IdempotencyCache K V × Value V
  unfolding get_entry
  get key default now c = get_entry key default now c (Dict.get dec key c.entries)

  -- `key in self._cache`, expired or not.
  abbrev pub holds : K → IdempotencyCache K V → Bool
  holds key c = elim (Dict.get dec key c.entries) [ none ↦ false | some e ↦ true ]

  -- The eviction of the first entry, where there is no room.
  make_room : Bool → IdempotencyCache K V → Store K V
  unfolding drop_first
  make_room full c = if full then drop_first c.entries else c.entries

  -- `set`.
  unfoldable pub set : K → Value V → Option ℤ → ℕ → IdempotencyCache K V → IdempotencyCache K V
  unfolding make_room expiry
  set key value ttl now c = record c {
    entries =
        Dict.set dec key (record { value = value; expires_at = expiry c ttl now })
          (make_room (leb c.max_size (length c.entries) && not (holds key c)) c);
  }

  -- `_exists_unlocked`.
  exists_entry : K → ℕ → IdempotencyCache K V → Option (Entry V) → IdempotencyCache K V × Bool
  exists_entry key now c none = (c, false)
  exists_entry key now c (some e) =
      if expired e.expires_at now
      then (record c { entries = Dict.pop dec key c.entries }, false)
      else (c, true)

  unfoldable pub exists_unlocked : K → ℕ → IdempotencyCache K V → IdempotencyCache K V × Bool
  unfolding exists_entry
  exists_unlocked key now c = exists_entry key now c (Dict.get dec key c.entries)

  -- `add`.
  add_new : K → Value V → Option ℤ → ℕ → IdempotencyCache K V → IdempotencyCache K V
  unfolding make_room expiry
  add_new key value ttl now c = record c {
    entries =
        Dict.set dec key (record { value = value; expires_at = expiry c ttl now })
          (make_room (leb c.max_size (length c.entries)) c);
  }

  unfoldable pub add :
      K → Value V → Option ℤ → ℕ → IdempotencyCache K V → IdempotencyCache K V × Bool
  unfolding add_new
  add key value ttl now c =
      let (c', there) = exists_unlocked key now c in
      if there then (c', false) else (add_new key value ttl now c', true)

  -- `delete`.
  unfoldable pub delete : K → IdempotencyCache K V → IdempotencyCache K V × Bool
  delete key c = (record c { entries = Dict.pop dec key c.entries }, holds key c)

  -- `clear`, and `close`.
  unfoldable pub clear : IdempotencyCache K V → IdempotencyCache K V
  clear c = record c { entries = [] }

  -- `get_many`.
  keep_found :
      Value V → IdempotencyCache K V × Bool → IdempotencyCache K V → IdempotencyCache K V × Bool
  keep_found none_value r c = r
  keep_found (int n) r c = (c, true)
  keep_found (object v) r c = (c, true)

  unfoldable pub get_many :
      List K → ℕ → IdempotencyCache K V → IdempotencyCache K V × List (K × Value V)
  unfolding keep_found
  get_many [] now c = (c, [])
  get_many (key ∷ keys) now c =
      let (c₁, value) = get key none_value now c in
      let (c₂, found) = keep_found value (exists_unlocked key now c₁) c₁ in
      let (c₃, rest) = get_many keys now c₂ in (c₃, if found then (key, value) ∷ rest else rest)

  -- `set_many`.
  unfoldable pub set_many :
      List (K × Value V) → Option ℤ → ℕ → IdempotencyCache K V → IdempotencyCache K V
  set_many [] ttl now c = c
  set_many ((key, value) ∷ items) ttl now c = set_many items ttl now (set key value ttl now c)

  -- `delete_many`.
  unfoldable pub delete_many : List K → IdempotencyCache K V → IdempotencyCache K V × ℕ
  delete_many [] c = (c, 0)
  delete_many (key ∷ keys) c =
      let (c₁, deleted) = delete key c in
      let (c₂, count) = delete_many keys c₁ in (c₂, if deleted then count + 1 else count)

  -- `ttl`.
  ttl_at : K → ℕ → IdempotencyCache K V → Option ℕ → IdempotencyCache K V × Remaining
  ttl_at key now c none = (c, endless)
  ttl_at key now c (some t) =
      if leb t now
      then (record c { entries = Dict.pop dec key c.entries }, missing)
      else (c, remaining (t - now))

  ttl_entry : K → ℕ → IdempotencyCache K V → Option (Entry V) → IdempotencyCache K V × Remaining
  unfolding ttl_at
  ttl_entry key now c none = (c, missing)
  ttl_entry key now c (some e) = ttl_at key now c e.expires_at

  unfoldable pub ttl : K → ℕ → IdempotencyCache K V → IdempotencyCache K V × Remaining
  unfolding ttl_entry
  ttl key now c = ttl_entry key now c (Dict.get dec key c.entries)

  -- `incr`: the write makes no room, and then moves the key to the end.
  incr_from : K → ℤ → IdempotencyCache K V → ℤ → Option ℕ → IdempotencyCache K V × Option ℤ
  unfolding move_to_end
  incr_from key delta c n at =
      let e : Entry V = record { value = int (n +ℤ delta); expires_at = at } in
      (record c { entries = move_to_end key e (Dict.set dec key e c.entries) }, some (n +ℤ delta))

  incr_value : K → ℤ → IdempotencyCache K V → Value V → Option ℕ → IdempotencyCache K V × Option ℤ
  unfolding incr_from
  incr_value key delta c none_value at = (c, none)
  incr_value key delta c (object v) at = (c, none)
  incr_value key delta c (int n) at = incr_from key delta c n at

  abbrev new_expiry : IdempotencyCache K V → Option ℤ → ℕ → Option ℕ → Option ℕ
  new_expiry c none now at = at
  new_expiry c (some t) now at = expiry c (some t) now

  incr_entry :
      K
      → ℤ
      → Option ℤ
      → ℕ
      → IdempotencyCache K V
      → Option (Entry V)
      → IdempotencyCache K V × Option ℤ
  unfolding incr_value
  incr_entry key delta ttl_s now c none =
      incr_value key delta c (int (pos 0)) (new_expiry c ttl_s now none)
  incr_entry key delta ttl_s now c (some e) =
      incr_value key delta c e.value (new_expiry c ttl_s now e.expires_at)

  unfoldable pub incr :
      K → ℤ → Option ℤ → ℕ → IdempotencyCache K V → IdempotencyCache K V × Option ℤ
  unfolding incr_from incr_entry
  incr key delta ttl_s now c =
      let (c', there) = exists_unlocked key now c in
      if there
      then incr_entry key delta ttl_s now c' (Dict.get dec key c'.entries)
      else incr_from key delta c' (pos 0) (expiry c' ttl_s now)
