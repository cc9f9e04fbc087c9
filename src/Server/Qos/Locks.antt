-- ===== src/Server/Qos/Locks.antt =====
-- The locks of QosHandler and the requests that hold them, counted:
-- src/aduib_rpc/server/qos/handler.py.
use mathlib.Core.Logic.{ite, if_pos, if_neg}
use aduib_rpc.Prelude.{
  Bool, List, Option, [], ap, arith, false, get_elem?, some, suc, sym, true, zero, ℕ, ◌++◌, ◌+◌,
  ◌∷◌, ◌≡◌, none, refl, ◌≤◌,
}
use aduib_rpc.Prelude.Dict
use aduib_rpc.Server.Qos.{
  CacheOps, Phase, arrived, waiting, locked, computing, ended, put, is_taken, taken_by, ensure_lock,
}

-- A request holds the lock of its key between the lock and its end.
unfoldable pub inside : {V : Type 0} → Phase V → ℕ
inside arrived = 0
inside waiting = 0
inside locked = 1
inside computing = 1
inside (ended r) = 0

module _ {K V : Type 0} (dec : Discrete K) where
  unfoldable pub inside_of : K → K × Phase V → ℕ
  unfolding inside
  inside_of q (k, p) = ite (dec k q) (inside p) 0

  unfoldable pub count_inside : K → List (K × Phase V) → ℕ
  unfolding inside_of
  count_inside q [] = 0
  count_inside q (r ∷ rs) = inside_of q r + count_inside q rs

  pub count_inside-put :
      (q : K) (r r' : K × Phase V) (rs : List (K × Phase V)) (i : ℕ)
      → get_elem? rs i ≡ some r
      → count_inside q (put rs i r') + inside_of q r ≡ count_inside q rs + inside_of q r'
  unfolding count_inside put
  count_inside-put q r r' [] i h = absurd (ground arith)
  count_inside-put q r r' (d ∷ rs) zero h = ground arith
  count_inside-put q r r' (d ∷ rs) (suc i) h = omega (arith, count_inside-put q r r' rs i h)

  pub count_inside-append :
      (q : K) (r : K × Phase V) (rs : List (K × Phase V))
      → count_inside q (rs ++ r ∷ []) ≡ count_inside q rs + inside_of q r
  unfolding count_inside
  count_inside-append q r [] = omega arith
  count_inside-append q r (d ∷ rs) = omega (arith, count_inside-append q r rs)

unfoldable pub as_number : Bool → ℕ
as_number true = 1
as_number false = 0

pub at_most_one : (n : ℕ) (b : Bool) → n ≡ as_number b → n ≤ 1
unfolding as_number
at_most_one n true e = omega arith
at_most_one n false e = omega arith

pub one_taken : (b : Bool) (n : ℕ) → n ≡ 1 → n ≤ as_number b → 0 + n ≡ as_number b + 0
unfolding as_number
one_taken true n e h = omega arith
one_taken false n e h = absurd (omega arith)

module _ {K V C : Type 0} (dec : Discrete K) (ops : CacheOps K V C) where
  pub is_taken-set :
      (q k : K) (b : Bool) (ls : List (K × Bool))
      → is_taken dec ops q (Dict.set dec k b ls) ≡ ite (dec k q) b (is_taken dec ops q ls)
  unfolding is_taken taken_by
  is_taken-set q k b ls = elim (dec k q) [
    | yes p ↦ rw (if_pos _ p, sym p) (ap (taken_by dec ops) (Dict.get-set_self dec k b ls))
    | no p ↦ rw (if_neg _ p) (ap (taken_by dec ops) (Dict.get-set_ne dec k q b ls (λ e. p (sym e))))
  ]

  pub untaken :
      (k : K) (ls : List (K × Bool)) → Dict.get dec k ls ≡ none → is_taken dec ops k ls ≡ false
  unfolding is_taken taken_by
  untaken k ls h = ap (taken_by dec ops) h

  pub ensure_taken :
      (q k : K) (o : Option Bool) (ls : List (K × Bool))
      → Dict.get dec k ls ≡ o
      → is_taken dec ops q (ensure_lock dec ops k o ls) ≡ is_taken dec ops q ls
  unfolding ensure_lock
  ensure_taken q k (some b) ls h = refl
  ensure_taken q k none ls h = elim (dec k q) [
    | yes p ↦ rw (is_taken-set q k false ls, if_pos _ p, sym p) (sym (untaken k ls h))
    | no p ↦ rw (is_taken-set q k false ls, if_neg _ p) refl
  ]

  pub count_inside-le :
      (q : K) (r : K × Phase V) (rs : List (K × Phase V)) (i : ℕ)
      → get_elem? rs i ≡ some r
      → inside_of dec q r ≤ count_inside dec q rs
  unfolding count_inside
  count_inside-le q r [] i h = absurd (ground arith)
  count_inside-le q r (d ∷ rs) zero h = ground arith
  count_inside-le q r (d ∷ rs) (suc i) h = omega (arith, count_inside-le q r rs i h)

  pub inside_self : (k : K) (p : Phase V) → inside_of dec k (k, p) ≡ inside p
  unfolding inside_of
  inside_self k p = if_pos (dec k k) refl (inside p) 0

  -- A new phase with a lock that changes by as much.
  pub lock_balance :
      (q k : K) (b : Bool) (p p' : Phase V) (ls : List (K × Bool))
      → as_number b + inside p ≡ as_number (is_taken dec ops k ls) + inside p'
      → as_number (is_taken dec ops q (Dict.set dec k b ls)) + inside_of dec q (k, p)
        ≡ as_number (is_taken dec ops q ls) + inside_of dec q (k, p')
  unfolding inside_of
  lock_balance q k b p p' ls h = elim (dec k q) [
    | yes e ↦
        rw
          (
            is_taken-set q k b ls,
            if_pos (dec k q) e b (is_taken dec ops q ls),
            if_pos (dec k q) e (inside p) 0,
            if_pos (dec k q) e (inside p') 0,
            sym e,
          )
          h
    | no e ↦
        rw
          (
            is_taken-set q k b ls,
            if_neg (dec k q) e b (is_taken dec ops q ls),
            if_neg (dec k q) e (inside p) 0,
            if_neg (dec k q) e (inside p') 0,
          )
          refl
  ]

  pub balance :
      (q k : K) (p p' : Phase V) (i : ℕ) (rs : List (K × Phase V)) (old new : Bool)
      → get_elem? rs i ≡ some (k, p)
      → count_inside dec q rs ≡ as_number old
      → as_number new + inside_of dec q (k, p) ≡ as_number old + inside_of dec q (k, p')
      → count_inside dec q (put rs i (k, p')) ≡ as_number new
  balance q k p p' i rs old new at h e =
      omega (arith, count_inside-put dec q (k, p) (k, p') rs i at)
