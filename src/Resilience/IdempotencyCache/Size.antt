-- ===== src/Resilience/IdempotencyCache/Size.antt =====
-- The size of the InMemoryIdempotencyCache of src/aduib_rpc/resilience/cache.py, and what its
-- eviction forgets.
use aduib_rpc.Prelude.{
  length, ◌≤◌, Bool-cases, List, Option, [], arith, inl, inr, length-append, none, refl, some, ℕ, ℤ,
  ◌-◌, ◌∷◌, ◌≡◌, Bool, false, leb, true, ◌+◌, pos, ◌+ℤ◌, Option-cases, not, ◌&&◌,
}
use aduib_rpc.Prelude.Dict
use aduib_rpc.Prelude.Dict.{IsDict}
use aduib_rpc.Resilience.IdempotencyCache.{
  IdempotencyCache, get_entry, drop_first, set, get, exists_entry, expiry, add, clear, incr,
  add_new, make_room, delete, exists_unlocked, holds,
}
use aduib_rpc.Resilience.Cache.{Entry, Value, Store, expired, int}

-- At least one entry fits, no key stands twice, and the entries fit.
pub record IsBounded {K V : Type 0} (dec : Discrete K) (c : IdempotencyCache K V) : Type 0 where
  pub room : 1 ≤ c.max_size
  pub distinct : IsDict dec c.entries
  pub fits : length c.entries ≤ c.max_size

length-drop_first : {A : Type 0} (xs : List A) → length (drop_first xs) ≡ length xs - 1
unfolding drop_first
length-drop_first [] = omega arith
length-drop_first (x ∷ xs) = omega arith

module _ {K V : Type 0} (dec : Discrete K) where
  drop_first-IsDict : (m : Store K V) → IsDict dec m → IsDict dec (drop_first m)
  unfolding drop_first
  drop_first-IsDict [] d = d
  drop_first-IsDict ((j, e) ∷ m) d = d.1

  make_room-IsDict :
      (full : Bool) (c : IdempotencyCache K V)
      → IsDict dec c.entries
      → IsDict dec (make_room dec full c)
  unfolding make_room
  make_room-IsDict true c d = drop_first-IsDict c.entries d
  make_room-IsDict false c d = d

  get_entry-IsBounded :
      (k : K) (default : Value V) (now : ℕ) (c : IdempotencyCache K V) (o : Option (Entry V))
      → Dict.get dec k c.entries ≡ o
      → IsBounded dec c
      → IsBounded dec (get_entry dec k default now c o).0
  unfolding get_entry
  get_entry-IsBounded k default now c none h v = v
  get_entry-IsBounded k default now c (some e) h v = elim (Bool-cases (expired e.expires_at now)) [
    | inl x ↦ rw x (record {
      room = v.room;
      distinct = Dict.pop-IsDict dec k c.entries v.distinct;
      fits = omega (arith, v.fits, Dict.length-pop-le dec k c.entries);
    })
    | inr x ↦ rw x (record {
      room = v.room;
      distinct =
          Dict.append-IsDict dec k e (Dict.pop dec k c.entries)
            (Dict.get-pop_self dec k c.entries v.distinct)
            (Dict.pop-IsDict dec k c.entries v.distinct);
      fits = omega (
        arith,
        v.fits,
        Dict.length-pop dec k e c.entries h,
        length-append (Dict.pop dec k c.entries) ((k, e) ∷ []),
      );
    })
  ]

  get-IsBounded :
      (k : K) (default : Value V) (now : ℕ) (c : IdempotencyCache K V)
      → IsBounded dec c
      → IsBounded dec (get dec k default now c).0
  unfolding get
  get-IsBounded k default now c v =
      get_entry-IsBounded k default now c (Dict.get dec k c.entries) refl v

  set-IsBounded :
      (k : K) (value : Value V) (ttl_s : Option ℤ) (now : ℕ) (c : IdempotencyCache K V)
      → IsBounded dec c
      → IsBounded dec (set dec k value ttl_s now c)
  unfolding set
  set-IsBounded k value ttl_s now c v =
      let e : Entry V = record { value = value; expires_at = expiry dec c ttl_s now } in
      let full = leb c.max_size (length c.entries) && not (holds dec k c) in
      record {
        room = v.room;
        distinct =
            Dict.set-IsDict dec k e (make_room dec full c) (make_room-IsDict full c v.distinct);
        fits = elim (Option-cases (Dict.get dec k c.entries)) [
          | inl h ↦ ground (
            arith,
            length-drop_first c.entries,
            Dict.length-set-le dec k e c.entries,
            Dict.length-set-le dec k e (drop_first c.entries),
          )
          | inr (d, h) ↦ ground (arith, Dict.length-set_old dec k e d c.entries h)
        ];
      }

  exists_entry-IsBounded :
      (k : K) (now : ℕ) (c : IdempotencyCache K V) (o : Option (Entry V))
      → IsBounded dec c
      → IsBounded dec (exists_entry dec k now c o).0
  unfolding exists_entry
  exists_entry-IsBounded k now c none v = v
  exists_entry-IsBounded k now c (some e) v = elim (Bool-cases (expired e.expires_at now)) [
    | inl x ↦ rw x (record {
      room = v.room;
      distinct = Dict.pop-IsDict dec k c.entries v.distinct;
      fits = omega (arith, v.fits, Dict.length-pop-le dec k c.entries);
    })
    | inr x ↦ rw x v
  ]

  add_new-IsBounded :
      (k : K) (value : Value V) (ttl_s : Option ℤ) (now : ℕ) (c : IdempotencyCache K V)
      → IsBounded dec c
      → IsBounded dec (add_new dec k value ttl_s now c)
  unfolding add_new
  add_new-IsBounded k value ttl_s now c v =
      let e : Entry V = record { value = value; expires_at = expiry dec c ttl_s now } in
      let full = leb c.max_size (length c.entries) in
      record {
        room = v.room;
        distinct =
            Dict.set-IsDict dec k e (make_room dec full c) (make_room-IsDict full c v.distinct);
        fits = ground (
          arith,
          length-drop_first c.entries,
          Dict.length-set-le dec k e c.entries,
          Dict.length-set-le dec k e (drop_first c.entries),
        );
      }

  add-IsBounded :
      (k : K) (value : Value V) (ttl_s : Option ℤ) (now : ℕ) (c : IdempotencyCache K V)
      → IsBounded dec c
      → IsBounded dec (add dec k value ttl_s now c).0
  unfolding add exists_unlocked
  add-IsBounded k value ttl_s now c v =
      let r = exists_entry dec k now c (Dict.get dec k c.entries) in
      let v' = exists_entry-IsBounded k now c (Dict.get dec k c.entries) v in
      elim (Bool-cases r.1) [
        | inl x ↦ rw x v'
        | inr x ↦ rw x (add_new-IsBounded k value ttl_s now r.0 v')
      ]

  delete-IsBounded :
      (k : K) (c : IdempotencyCache K V) → IsBounded dec c → IsBounded dec (delete dec k c).0
  unfolding delete
  delete-IsBounded k c v = record {
    room = v.room;
    distinct = Dict.pop-IsDict dec k c.entries v.distinct;
    fits = omega (arith, v.fits, Dict.length-pop-le dec k c.entries);
  }

-- The methods that read or write one key, with their clock readings, and `clear`.
pub data Op (K V : Type 0) : Type 0 where
  reads : K → Value V → ℕ → Op K V
  writes : K → Value V → Option ℤ → ℕ → Op K V
  adds : K → Value V → Option ℤ → ℕ → Op K V
  checks : K → ℕ → Op K V
  deletes : K → Op K V
  clears : Op K V

module _ {K V : Type 0} (dec : Discrete K) where
  unfoldable pub run_op : Op K V → IdempotencyCache K V → IdempotencyCache K V
  run_op (reads k default now) c = (get dec k default now c).0
  run_op (writes k value ttl_s now) c = set dec k value ttl_s now c
  run_op (adds k value ttl_s now) c = (add dec k value ttl_s now c).0
  run_op (checks k now) c = (exists_unlocked dec k now c).0
  run_op (deletes k) c = (delete dec k c).0
  run_op clears c = clear dec c

  unfoldable pub run_ops : List (Op K V) → IdempotencyCache K V → IdempotencyCache K V
  run_ops [] c = c
  run_ops (o ∷ os) c = run_ops os (run_op o c)

  run_op-IsBounded :
      (o : Op K V) (c : IdempotencyCache K V) → IsBounded dec c → IsBounded dec (run_op o c)
  unfolding run_op clear exists_unlocked
  run_op-IsBounded (reads k default now) c v = get-IsBounded dec k default now c v
  run_op-IsBounded (writes k value ttl_s now) c v = set-IsBounded dec k value ttl_s now c v
  run_op-IsBounded (adds k value ttl_s now) c v = add-IsBounded dec k value ttl_s now c v
  run_op-IsBounded (checks k now) c v =
      exists_entry-IsBounded dec k now c (Dict.get dec k c.entries) v
  run_op-IsBounded (deletes k) c v = delete-IsBounded dec k c v
  run_op-IsBounded clears c v = record { room = v.room; distinct = tt; fits = omega arith }

  -- Any sequence of `get`, `set`, `add`, `contains`, `delete` and `clear` keeps the cache at no more
  -- entries than `max_size`, with no key twice.
  pub run_ops-IsBounded :
      (os : List (Op K V)) (c : IdempotencyCache K V)
      → IsBounded dec c
      → IsBounded dec (run_ops os c)
  unfolding run_ops
  run_ops-IsBounded [] c v = v
  run_ops-IsBounded (o ∷ os) c v = run_ops-IsBounded os (run_op o c) (run_op-IsBounded o c v)

  -- `incr` of a key that a full cache does not hold adds an entry and evicts none, so the cache then
  -- holds one entry more than `max_size`.
  pub incr_overflows :
      (k : K) (delta : ℤ) (ttl_s : Option ℤ) (now : ℕ) (c : IdempotencyCache K V)
      → Dict.get dec k c.entries ≡ none
      → length c.entries ≡ c.max_size
      → length (incr dec k delta ttl_s now c).0.entries
        ≡ (incr dec k delta ttl_s now c).0.max_size + 1
  unfolding incr exists_unlocked
  incr_overflows k delta ttl_s now c h full =
      let e : Entry V = record {
        value = int (pos 0 +ℤ delta);
        expires_at = expiry dec c ttl_s now;
      } in
      let m = Dict.set dec k e c.entries in
      rw h (
        omega (
          arith,
          full,
          length-append (Dict.pop dec k m) ((k, e) ∷ []),
          Dict.length-pop dec k e m (Dict.get-set_self dec k e c.entries),
          Dict.length-set_new dec k e c.entries h,
        ))
