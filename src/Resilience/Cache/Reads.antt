-- ===== src/Resilience/Cache/Reads.antt =====
-- What can be read from the InMemoryCache of src/aduib_rpc/resilience/cache.py: its methods against
-- a map from keys and times to values.
use mathlib.Core.Option.{get_or}
use aduib_rpc.Prelude.{
  ℕ, Option, arith, if◌then◌else◌, none, some, true, ◌≡◌, ◌≤◌, Bool-cases, false, inl, inr, refl, ℤ,
  ◌≢◌, Bool, not, ◌∙◌, pos, ◌+ℤ◌, Option-cases, ap, sym,
}
use aduib_rpc.Prelude.Dict
use aduib_rpc.Prelude.Dict.{IsDict}
use aduib_rpc.Resilience.Cache.{
  Value, Entry, expired, Store, exists_unlocked, get, add, exists_entry, get_entry, set, expires_at,
  int, incr_from, incr, incr_entry, object, none_value,
}

abbrev seen_entry : {V : Type 0} → ℕ → Option (Entry V) → Option (Value V)
seen_entry t none = none
seen_entry t (some e) = if expired e.expires_at t then none else some e.value

abbrev pub is_some : {V : Type 0} → Option V → Bool
is_some none = false
is_some (some v) = true

module _ {K V : Type 0} (dec : Discrete K) where
  -- The value of a key that is not expired at a time: the abstract view of a store.
  unfoldable pub seen : K → ℕ → Store K V → Option (Value V)
  seen k t store = seen_entry t (Dict.get dec k store)

  seen-pop :
      (k q : K) (now t : ℕ) (e : Entry V) (store : Store K V)
      → IsDict dec store
      → Dict.get dec k store ≡ some e
      → expired e.expires_at now ≡ true
      → now ≤ t
      → seen q t (Dict.pop dec k store) ≡ seen q t store
  unfolding seen expired
  seen-pop k q now t e store d h x l = elim (dec q k) [
    | yes p ↦ rw (p, Dict.get-pop_self dec k store d, h) (ground arith)
    | no p ↦ rw (Dict.get-pop_ne dec k q store p)
  ]

  exists_entry-seen :
      (k q : K) (now t : ℕ) (store : Store K V) (o : Option (Entry V))
      → IsDict dec store
      → Dict.get dec k store ≡ o
      → now ≤ t
      → seen q t (exists_entry dec k now store o).0 ≡ seen q t store
  unfolding exists_entry
  exists_entry-seen k q now t store none d h l = refl
  exists_entry-seen k q now t store (some e) d h l = elim (Bool-cases (expired e.expires_at now)) [
    | inl x ↦ rw x (seen-pop k q now t e store d h x l)
    | inr x ↦ rw x
  ]

  get_entry-seen :
      (k q : K) (default : Value V) (now t : ℕ) (store : Store K V) (o : Option (Entry V))
      → IsDict dec store
      → Dict.get dec k store ≡ o
      → now ≤ t
      → seen q t (get_entry dec k default now store o).0 ≡ seen q t store
  unfolding get_entry
  get_entry-seen k q default now t store none d h l = refl
  get_entry-seen k q default now t store (some e) d h l =
      elim (Bool-cases (expired e.expires_at now)) [
        | inl x ↦ rw x (seen-pop k q now t e store d h x l)
        | inr x ↦ rw x
      ]

  get_entry-value :
      (k : K) (default : Value V) (now : ℕ) (store : Store K V) (o : Option (Entry V))
      → (get_entry dec k default now store o).1 ≡ get_or (seen_entry now o) default
  unfolding get_entry
  get_entry-value k default now store none = refl
  get_entry-value k default now store (some e) = elim (Bool-cases (expired e.expires_at now)) [
    | inl x ↦ rw (x, seen_entry)
    | inr x ↦ rw (x, seen_entry)
  ]

  -- `get` returns the value of the key, or the default where it is missing or expired, and leaves
  -- every key, at every time from then on, as it was to be read.
  pub get_lem :
      (k : K) (default : Value V) (now : ℕ) (store : Store K V)
      → IsDict dec store
      → ((get dec k default now store).1 ≡ get_or (seen k now store) default)
        × ((q : K) (t : ℕ) → now ≤ t → seen q t (get dec k default now store).0 ≡ seen q t store)
  unfolding get seen
  get_lem k default now store d = (
    get_entry-value k default now store (Dict.get dec k store),
    λ q t l. get_entry-seen k q default now t store (Dict.get dec k store) d refl l,
  )

  -- `set` writes the key until its time to live is over, and no other key.
  pub set_lem :
      (k : K) (v : Value V) (ttl_s : Option ℤ) (now t : ℕ) (store : Store K V)
      → (seen k t (set dec k v ttl_s now store)
          ≡ (if expired (expires_at ttl_s now) t then none else some v))
        × ((q : K) → q ≢ k → seen q t (set dec k v ttl_s now store) ≡ seen q t store)
  unfolding set seen
  set_lem k v ttl_s now t store = (
    rw (Dict.get-set_self dec k (record { value = v; expires_at = expires_at ttl_s now }) store),
    λ q n.
        rw (
          Dict.get-set_ne dec k q (record { value = v; expires_at = expires_at ttl_s now }) store
            n),
  )

  exists_entry-there :
      (k : K) (now : ℕ) (store : Store K V) (o : Option (Entry V))
      → IsDict dec store
      → ((exists_entry dec k now store o).1 ≡ is_some (seen_entry now o))
        × IsDict dec (exists_entry dec k now store o).0
  unfolding exists_entry
  exists_entry-there k now store none d = (refl, d)
  exists_entry-there k now store (some e) d = elim (Bool-cases (expired e.expires_at now)) [
    | inl x ↦ rw (x, seen_entry, is_some) (refl, Dict.pop-IsDict dec k store d)
    | inr x ↦ rw (x, seen_entry, is_some) (refl, d)
  ]

  exists_unlocked_lem :
      (k : K) (now : ℕ) (store : Store K V)
      → IsDict dec store
      → ((exists_unlocked dec k now store).1 ≡ is_some (seen k now store))
        × IsDict dec (exists_unlocked dec k now store).0
        × ((q : K) (t : ℕ)
            → now ≤ t
            → seen q t (exists_unlocked dec k now store).0 ≡ seen q t store)
  unfolding exists_unlocked seen
  exists_unlocked_lem k now store d =
      let (there, dict) = exists_entry-there k now store (Dict.get dec k store) d in
      (there, dict, λ q t l. exists_entry-seen k q now t store (Dict.get dec k store) d refl l)

  -- `add` writes exactly where nothing can be read, tells whether it did, and leaves all other keys
  -- as they were to be read.
  pub add_lem :
      (k : K) (v : Value V) (ttl_s : Option ℤ) (now t : ℕ) (store : Store K V)
      → IsDict dec store
      → now ≤ t
      → ((add dec k v ttl_s now store).1 ≡ not (is_some (seen k now store)))
        × (seen k t (add dec k v ttl_s now store).0 ≡ (
            if is_some (seen k now store)
            then seen k t store
            else if expired (expires_at ttl_s now) t
            then none
            else some v))
        × ((q : K) → q ≢ k → seen q t (add dec k v ttl_s now store).0 ≡ seen q t store)
  unfolding add
  add_lem k v ttl_s now t store d l =
      let (there, dict, same) = exists_unlocked_lem k now store d in
      let store' = (exists_unlocked dec k now store).0 in
      let (written, others) = set_lem k v ttl_s now t store' in
      elim (Bool-cases (is_some (seen k now store))) [
        | inl p ↦ rw (there, p) (refl, same k t l, λ q n. same q t l)
        | inr p ↦ rw (there, p) (refl, written, λ q n. others q n ∙ same q t l)
      ]

  -- What `incr` makes of the value that can be read.
  abbrev pub incremented : Option (Value V) → ℤ → Option ℤ
  incremented none delta = some (pos 0 +ℤ delta)
  incremented (some none_value) delta = none
  incremented (some (int n)) delta = some (n +ℤ delta)
  incremented (some (object v)) delta = none

  incr_from-seen :
      (k : K) (delta : ℤ) (now : ℕ) (store : Store K V) (n : ℤ) (at : Option ℕ)
      → expired at now ≡ false
      → seen k now (incr_from dec k delta none now store n at).0 ≡ some (int (n +ℤ delta))
  unfolding incr_from seen
  incr_from-seen k delta now store n at x =
      rw (Dict.get-set_self dec k (record { value = int (n +ℤ delta); expires_at = at }) store)
        (rw (x, seen_entry))

  incr_entry-seen :
      (k : K) (delta : ℤ) (now : ℕ) (store : Store K V) (v : Value V) (at : Option ℕ)
      → expired at now ≡ false
      → (m : ℤ) → (incr_entry dec k delta none now store v at).1 ≡ some m
      → seen k now (incr_entry dec k delta none now store v at).0 ≡ some (int m)
  unfolding incr_entry
  incr_entry-seen k delta now store none_value at x m h = cc
  incr_entry-seen k delta now store (object v) at x m h = cc
  incr_entry-seen k delta now store (int n) at x m h = incr_from-seen k delta now store n at x ∙ cc

  incr_entry-result :
      (k : K) (delta : ℤ) (ttl_s : Option ℤ) (now : ℕ) (store : Store K V) (v : Value V)
      (at : Option ℕ)
      → (incr_entry dec k delta ttl_s now store v at).1 ≡ incremented (some v) delta
  unfolding incr_entry
  incr_entry-result k delta ttl_s now store none_value at = refl
  incr_entry-result k delta ttl_s now store (object v) at = refl
  incr_entry-result k delta ttl_s now store (int n) at = refl

  module _ (k : K) (delta : ℤ) (ttl_s : Option ℤ) (now : ℕ) (store : Store K V) where
    incr_absent :
        Dict.get dec k store ≡ none
        → incr dec k delta ttl_s now store
          ≡ incr_from dec k delta ttl_s now store (pos 0) (expires_at ttl_s now)
    unfolding incr exists_unlocked
    incr_absent h = rw (h, exists_entry)

    incr_of_stale :
        (e : Entry V)
        → Dict.get dec k store ≡ some e
        → expired e.expires_at now ≡ true
        → incr dec k delta ttl_s now store
          ≡ incr_from dec k delta ttl_s now (Dict.pop dec k store) (pos 0) (expires_at ttl_s now)
    unfolding incr exists_unlocked exists_entry
    incr_of_stale e h x = rw (h, x)

    exists_alive :
        (e : Entry V)
        → Dict.get dec k store ≡ some e
        → expired e.expires_at now ≡ false
        → exists_unlocked dec k now store ≡ (store, true)
    unfolding exists_unlocked exists_entry
    exists_alive e h x = rw (h, x)

    incr_alive :
        (e : Entry V)
        → Dict.get dec k store ≡ some e
        → expired e.expires_at now ≡ false
        → incr dec k delta ttl_s now store
          ≡ incr_entry dec k delta ttl_s now store e.value e.expires_at
    unfolding incr
    incr_alive e h x = rw (exists_alive e h x, h, exists_alive e h x)

  -- Every call of `incr` is one of the two forms above, by what can be read.
  incr_new :
      (k : K) (delta : ℤ) (ttl_s : Option ℤ) (now : ℕ) (store : Store K V)
      → seen k now store ≡ none
      → (store' : Store K V) × (incr dec k delta ttl_s now store
          ≡ incr_from dec k delta ttl_s now store' (pos 0) (expires_at ttl_s now))
  unfolding seen
  incr_new k delta ttl_s now store gone = elim (Option-cases (Dict.get dec k store)) [
    | inl h ↦ (store, incr_absent k delta ttl_s now store h)
    | inr (e, h) ↦ elim (Bool-cases (expired e.expires_at now)) [
      | inl x ↦ (Dict.pop dec k store, incr_of_stale k delta ttl_s now store e h x)
      | inr x ↦ absurd (
          let q : seen_entry now (some e) ≡ none = ap (seen_entry now) (sym h) ∙ gone in
          ground arith)
    ]
  ]

  incr_old :
      (k : K) (delta : ℤ) (ttl_s : Option ℤ) (now : ℕ) (store : Store K V) (v : Value V)
      → seen k now store ≡ some v
      → (e : Entry V) × (e.value ≡ v)
        × (expired e.expires_at now ≡ false)
        × (incr dec k delta ttl_s now store ≡ incr_entry dec k delta ttl_s now store v e.expires_at)
  unfolding seen
  incr_old k delta ttl_s now store v there = elim (Option-cases (Dict.get dec k store)) [
    | inl h ↦
        absurd (
          let q : seen_entry now none ≡ some v = ap (seen_entry now) (sym h) ∙ there in
          ground arith)
    | inr (e, h) ↦ elim (Bool-cases (expired e.expires_at now)) [
      | inl x ↦ absurd (
          let q : seen_entry now (some e) ≡ some v = ap (seen_entry now) (sym h) ∙ there in
          ground arith)
      | inr x ↦
          let q : seen_entry now (some e) ≡ some v = ap (seen_entry now) (sym h) ∙ there in
          let same : e.value ≡ v = ground arith in
          (
            e,
            same,
            x,
            incr_alive k delta ttl_s now store e h x
                ∙ ap (λ w. incr_entry dec k delta ttl_s now store w e.expires_at) same,
          )
    ]
  ]

  -- `incr` returns the sum of `delta` and the int that can be read, or 0 where nothing can, and is
  -- refused where something else can; with no time to live given, its result can be read at once.
  pub incr_lem :
      (k : K) (delta : ℤ) (ttl_s : Option ℤ) (now : ℕ) (store : Store K V)
      → ((incr dec k delta ttl_s now store).1 ≡ incremented (seen k now store) delta)
        × ((m : ℤ)
            → (incr dec k delta none now store).1 ≡ some m
            → seen k now (incr dec k delta none now store).0 ≡ some (int m))
  unfolding incr_from expired expires_at
  incr_lem k delta ttl_s now store = elim (Option-cases (seen k now store)) [
    | inl gone ↦
        let (store', same) = incr_new k delta ttl_s now store gone in
        let (store₂, same₂) = incr_new k delta none now store gone in
        (
          ap (λ r. r.1) same ∙ ap (λ o. incremented o delta) (sym gone),
          λ m p.
              ap (λ r. seen k now r.0) same₂
              ∙ incr_from-seen k delta now store₂ (pos 0) none refl
              ∙ let q : some (pos 0 +ℤ delta) ≡ some m = sym (ap (λ r. r.1) same₂) ∙ p in cc,
        )
    | inr (v, there) ↦
        let (e, _, alive, same) = incr_old k delta ttl_s now store v there in
        let (e₂, _, alive₂, same₂) = incr_old k delta none now store v there in
        (
          ap (λ r. r.1) same
              ∙ incr_entry-result k delta ttl_s now store v e.expires_at
              ∙ ap (λ o. incremented o delta) (sym there),
          λ m p.
              ap (λ r. seen k now r.0) same₂
              ∙ incr_entry-seen k delta now store v e₂.expires_at alive₂ m
                  (sym (ap (λ r. r.1) same₂) ∙ p),
        )
  ]
