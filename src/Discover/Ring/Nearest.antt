-- ===== src/Discover/Ring/Nearest.antt =====
-- The key of a hash ring that follows a hash clockwise: what the sorted keys and `bisect` of
-- src/aduib_rpc/discover/load_balance/load_balance.py find.
use native.Mathlib.Decide.{ℕ_discrete}
use aduib_rpc.Prelude.{
  Bool, Bool-cases, List, Option, [], ap, arith, false, get_elem?, if◌then◌else◌, inl, inr, leb,
  leb→le, ltb, none, refl, some, tests, true, ℕ, ◌∙◌, ◌∷◌, ◌≡◌, ◌≤◌, leb→gt, length, lt→ltb, sym,
  ◌<◌, ◌≢◌,
}
use aduib_rpc.Discover.Ring.{insert, sort, index_for, bisect}

-- Clockwise from `h`, whether `a` comes no later than `b`: the keys above `h` come first.
abbrev pub no_later : ℕ → ℕ → ℕ → Bool
no_later h a b =
    if ltb h a then (if ltb h b then leb a b else true) else (if ltb h b then false else leb a b)

-- The nearer of two keys that may be missing.
unfoldable pub nearer : ℕ → Option ℕ → Option ℕ → Option ℕ
nearer h none b = b
nearer h (some a) none = some a
nearer h (some a) (some b) = if no_later h a b then some a else some b

-- The nearest of some keys, in any order.
unfoldable pub nearest : ℕ → List ℕ → Option ℕ
nearest h [] = none
nearest h (k ∷ ks) = nearer h (some k) (nearest h ks)

nearer_swap :
    (h a b : ℕ) (c : Option ℕ)
    → nearer h (some a) (nearer h (some b) c) ≡ nearer h (some b) (nearer h (some a) c)
unfolding nearer
nearer_swap h a b none = ground arith
nearer_swap h a b (some c) = ground arith

nearest-insert : (h k : ℕ) (ks : List ℕ) → nearest h (insert k ks) ≡ nearest h (k ∷ ks)
unfolding insert nearest
nearest-insert h k [] = refl
nearest-insert h k (j ∷ ks) = elim (Bool-cases (leb k j)) [
  | inl p ↦ rw p refl
  | inr p ↦ rw (p, nearest-insert h k ks) (nearer_swap h j k (nearest h ks))
]

pub nearest-sort : (h : ℕ) (ks : List ℕ) → nearest h (sort ks) ≡ nearest h ks
unfolding sort nearest
nearest-sort h [] = refl
nearest-sort h (k ∷ ks) = nearest-insert h k (sort ks) ∙ ap (nearer h (some k)) (nearest-sort h ks)

abbrev Above : ℕ → List ℕ → Type 0
Above k [] = Unit
Above k (j ∷ ks) = k ≤ j

abbrev IsSorted : List ℕ → Type 0
IsSorted [] = Unit
IsSorted (k ∷ ks) = Above k ks × IsSorted ks

insert-Above : (k j : ℕ) (ks : List ℕ) → j ≤ k → Above j ks → Above j (insert k ks)
unfolding insert
insert-Above k j [] h a = h
insert-Above k j (i ∷ ks) h a = ground arith

insert-IsSorted : (k : ℕ) (ks : List ℕ) → IsSorted ks → IsSorted (insert k ks)
unfolding insert
insert-IsSorted k [] s = (tt, tt)
insert-IsSorted k (j ∷ ks) s = elim (Bool-cases (leb k j)) [
  | inl p ↦ rw p (leb→le k j p, s)
  | inr p ↦ rw p (insert-Above k j ks (omega tests) s.0, insert-IsSorted k ks s.1)
]

sort-IsSorted : (ks : List ℕ) → IsSorted (sort ks)
unfolding sort
sort-IsSorted [] = tt
sort-IsSorted (k ∷ ks) = insert-IsSorted k (sort ks) (sort-IsSorted ks)

-- The first key of a list, and the first one above `h`.
first_key : List ℕ → Option ℕ
first_key [] = none
first_key (k ∷ ks) = some k

first_above : ℕ → List ℕ → Option ℕ
first_above h [] = none
first_above h (k ∷ ks) = if ltb h k then some k else first_above h ks

or_else : Option ℕ → Option ℕ → Option ℕ
or_else none b = b
or_else (some a) b = some a

-- What the first key above `h` is in a sorted list that starts with `k`.
abbrev Bounds : ℕ → ℕ → Option ℕ → Type 0
Bounds h k none = k ≤ h
Bounds h k (some m) = (h < m) × (k ≤ m)

Bounds-step :
    (h k j : ℕ) (o : Option ℕ) → k ≤ j → Bounds h j o → Bounds h k (if ltb h k then some k else o)
Bounds-step h k j none le b = ground arith
Bounds-step h k j (some m) le b = ground arith

first_above-Bounds :
    (h k : ℕ) (ks : List ℕ) → IsSorted (k ∷ ks) → Bounds h k (first_above h (k ∷ ks))
unfolding first_above
first_above-Bounds h k [] s = ground arith
first_above-Bounds h k (j ∷ ks) s =
    Bounds-step h k j (first_above h (j ∷ ks)) s.0 (first_above-Bounds h j ks s.1)

nearer_step :
    (h k j : ℕ) (o : Option ℕ)
    → k ≤ j
    → Bounds h j o
    → nearer h (some k) (or_else o (some j)) ≡ or_else (if ltb h k then some k else o) (some k)
unfolding nearer or_else
nearer_step h k j none le b = ground arith
nearer_step h k j (some m) le b = ground arith

nearer_alone :
    (h k : ℕ) → nearer h (some k) none ≡ or_else (if ltb h k then some k else none) (some k)
unfolding nearer or_else
nearer_alone h k = ground arith

gt_false : (h k : ℕ) → leb k h ≡ true → ltb h k ≡ false
gt_false h k p = ground arith

nearest_of_sorted :
    (h : ℕ) (ks : List ℕ) → IsSorted ks → nearest h ks ≡ or_else (first_above h ks) (first_key ks)
unfolding nearest first_key first_above or_else
nearest_of_sorted h [] s = refl
nearest_of_sorted h (k ∷ []) s = nearer_alone h k
nearest_of_sorted h (k ∷ j ∷ ks) s =
    ap (nearer h (some k)) (nearest_of_sorted h (j ∷ ks) s.1)
    ∙ nearer_step h k j (first_above h (j ∷ ks)) s.0 (first_above-Bounds h j ks s.1)

-- In a sorted list the first key above `h` stands behind those that are at most `h`.
picked_above : (h : ℕ) (ks : List ℕ) → get_elem? ks (bisect ks h) ≡ first_above h ks
unfolding bisect first_above
picked_above h [] = refl
picked_above h (k ∷ ks) = elim (Bool-cases (leb k h)) [
  | inl p ↦ rw (p, gt_false h k p) (picked_above h ks)
  | inr p ↦ rw (p, lt→ltb h k (leb→gt k h p)) refl
]

bisect_past : (h : ℕ) (ks : List ℕ) → bisect ks h ≡ length ks → first_above h ks ≡ none
unfolding bisect first_above
bisect_past h [] e = refl
bisect_past h (k ∷ ks) e = ground (arith, bisect_past h ks)

bisect_inside :
    (h : ℕ) (ks : List ℕ) → bisect ks h ≢ length ks → (m : ℕ) × (first_above h ks ≡ some m)
unfolding bisect first_above
bisect_inside h [] e = absurd (e refl)
bisect_inside h (k ∷ ks) e = elim (Bool-cases (leb k h)) [
  | inl p ↦ let (m, q) = bisect_inside h ks (ground arith) in (m, ground arith)
  | inr p ↦ (k, ground arith)
]

get_first : (ks : List ℕ) → get_elem? ks 0 ≡ first_key ks
unfolding first_key
get_first [] = refl
get_first (k ∷ ks) = refl

picked :
    (h : ℕ) (ks : List ℕ)
    → get_elem? ks (index_for ks h) ≡ or_else (first_above h ks) (first_key ks)
unfolding index_for or_else
picked h ks = elim (ℕ_discrete (bisect ks h) (length ks)) [
  | yes p ↦ ground (arith, bisect_past h ks p, get_first ks)
  | no p ↦ let (m, q) = bisect_inside h ks p in ground (arith, picked_above h ks)
]

-- The key that `select_instance` reads is the nearest one.
pub get_elem?-sort :
    (h : ℕ) (ks : List ℕ) → get_elem? (sort ks) (index_for (sort ks) h) ≡ nearest h ks
get_elem?-sort h ks =
    picked h (sort ks) ∙ sym (nearest_of_sorted h (sort ks) (sort-IsSorted ks)) ∙ nearest-sort h ks
