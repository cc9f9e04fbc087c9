-- ===== src/Resilience/IdempotencyCache/Eviction.antt =====
-- What `set` of the InMemoryIdempotencyCache of src/aduib_rpc/resilience/cache.py writes and
-- forgets.
use mathlib.Core.Logic.{if_neg}
use aduib_rpc.Prelude.{
  ℕ, Bool, Option, [], false, leb, length, not, refl, some, true, ℤ, ◌&&◌, ◌<◌, ◌∙◌, ◌∷◌, ◌≡◌, ◌≢◌,
  ◌⊎◌, arith, ap,
}
use aduib_rpc.Prelude.Dict
use aduib_rpc.Resilience.Cache.{Value, Entry, Store}
use aduib_rpc.Resilience.IdempotencyCache.{
  IdempotencyCache, set, drop_first, make_room, expiry, holds,
}

module _ {K V : Type 0} (dec : Discrete K) where
  -- The first entry, which an eviction takes, has the key.
  abbrev pub IsFirst : K → Store K V → Type 0
  IsFirst q [] = ⊥
  IsFirst q ((j, e) ∷ m) = j ≡ q

  get-drop_first :
      (q : K) (m : Store K V) → ¬ IsFirst q m → Dict.get dec q (drop_first m) ≡ Dict.get dec q m
  unfolding drop_first Dict.get
  get-drop_first q [] n = refl
  get-drop_first q ((j, e) ∷ m) n = rw (if_neg (dec j q) n)

  get-make_room :
      (q : K) (full : Bool) (c : IdempotencyCache K V)
      → ¬ IsFirst q c.entries
      → Dict.get dec q (make_room dec full c) ≡ Dict.get dec q c.entries
  unfolding make_room
  get-make_room q true c n = get-drop_first q c.entries n
  get-make_room q false c n = refl

  not_full :
      (k : K) (c : IdempotencyCache K V)
      → (length c.entries < c.max_size) ⊎ (holds dec k c ≡ true)
      → (leb c.max_size (length c.entries) && not (holds dec k c)) ≡ false
  not_full k c h = ground arith

  -- `set` stores the value with its expiry under the key; every other key but that of the first
  -- entry, the least recently used, keeps its entry, and so does the first while there is room or if
  -- the key was there.
  pub set_evicts :
      (k : K) (v : Value V) (ttl_s : Option ℤ) (now : ℕ) (c : IdempotencyCache K V)
      → (Dict.get dec k (set dec k v ttl_s now c).entries
          ≡ some (record { value = v; expires_at = expiry dec c ttl_s now }))
        × ((q : K)
            → q ≢ k
            → ¬ IsFirst q c.entries
            → Dict.get dec q (set dec k v ttl_s now c).entries ≡ Dict.get dec q c.entries)
        × ((q : K)
            → q ≢ k
            → (length c.entries < c.max_size) ⊎ (holds dec k c ≡ true)
            → Dict.get dec q (set dec k v ttl_s now c).entries ≡ Dict.get dec q c.entries)
  unfolding set
  set_evicts k v ttl_s now c =
      let e : Entry V = record { value = v; expires_at = expiry dec c ttl_s now } in
      let full = leb c.max_size (length c.entries) && not (holds dec k c) in
      (
        Dict.get-set_self dec k e (make_room dec full c),
        (λ q n f. Dict.get-set_ne dec k q e (make_room dec full c) n ∙ get-make_room q full c f),
        λ q n room.
            Dict.get-set_ne dec k q e (make_room dec full c) n
            ∙ ap (λ b. Dict.get dec q (make_room dec b c)) (not_full k c room),
      )
