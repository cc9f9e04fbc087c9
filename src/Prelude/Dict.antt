-- ===== src/Prelude/Dict.antt =====
-- Python's `dict` as an association list in insertion order: a write to a key that is there keeps
-- its place, a new key goes to the end.
use mathlib.Core.List.{List, [], ◌∷◌, ◌++◌}
use mathlib.Core.Logic.{◌≢◌, ite}
use mathlib.Core.Option.{Option, none, some}
use mathlib.Core.Path.{◌≡◌, refl}
use native.Mathlib.Omega.{arith}
use Prim.Native.Nat.{◌+◌, ◌≤◌}
use aduib_rpc.Prelude.Lists.{length}

module _ {K E : Type 0} (dec : Discrete K) where
  -- `d.get(k)`.
  unfoldable pub get : K → List (K × E) → Option E
  get k [] = none
  get k ((j, e) ∷ m) = ite (dec j k) (some e) (get k m)

  -- `d[k] = e`.
  unfoldable pub set : K → E → List (K × E) → List (K × E)
  set k e [] = (k, e) ∷ []
  set k e ((j, d) ∷ m) = ite (dec j k) ((j, e) ∷ m) ((j, d) ∷ set k e m)

  -- `d.pop(k, None)`, without its result.
  unfoldable pub pop : K → List (K × E) → List (K × E)
  pop k [] = []
  pop k ((j, d) ∷ m) = ite (dec j k) m ((j, d) ∷ pop k m)

  -- No key stands twice: what follows an entry does not hold its key.
  abbrev pub IsDict : List (K × E) → Type 0
  IsDict [] = Unit
  IsDict ((j, d) ∷ m) = (get j m ≡ none) × IsDict m

  pub get-set_self : (k : K) (e : E) (m : List (K × E)) → get k (set k e m) ≡ some e
  unfolding get set
  get-set_self k e [] = ground arith
  get-set_self k e ((j, d) ∷ m) = ground (arith, get-set_self k e m)

  pub get-set_ne : (k q : K) (e : E) (m : List (K × E)) → q ≢ k → get q (set k e m) ≡ get q m
  unfolding get set
  get-set_ne k q e [] h = ground arith
  get-set_ne k q e ((j, d) ∷ m) h = ground (arith, get-set_ne k q e m)

  pub get-pop_ne : (k q : K) (m : List (K × E)) → q ≢ k → get q (pop k m) ≡ get q m
  unfolding get pop
  get-pop_ne k q [] h = refl
  get-pop_ne k q ((j, d) ∷ m) h = ground (arith, get-pop_ne k q m)

  pub get-pop_self : (k : K) (m : List (K × E)) → IsDict m → get k (pop k m) ≡ none
  unfolding get pop
  get-pop_self k [] h = refl
  get-pop_self k ((j, d) ∷ m) h = ground (arith, get-pop_self k m)

  pub get-pop_absent : (k q : K) (m : List (K × E)) → get q m ≡ none → get q (pop k m) ≡ none
  unfolding get pop
  get-pop_absent k q [] h = refl
  get-pop_absent k q ((j, d) ∷ m) h = ground (arith, get-pop_absent k q m)

  pub set-IsDict : (k : K) (e : E) (m : List (K × E)) → IsDict m → IsDict (set k e m)
  unfolding set get
  set-IsDict k e [] h = (refl, tt)
  set-IsDict k e ((j, d) ∷ m) h = ground (arith, set-IsDict k e m, get-set_ne k j e m)

  pub pop-IsDict : (k : K) (m : List (K × E)) → IsDict m → IsDict (pop k m)
  unfolding pop get
  pop-IsDict k [] h = tt
  pop-IsDict k ((j, d) ∷ m) h = ground (arith, pop-IsDict k m, get-pop_absent k j m)

  pub length-set_old :
      (k : K) (e d : E) (m : List (K × E)) → get k m ≡ some d → length (set k e m) ≡ length m
  unfolding set get
  length-set_old k e d [] h = absurd (ground arith)
  length-set_old k e d ((j, c) ∷ m) h = ground (arith, length-set_old k e d m)

  pub length-set_new :
      (k : K) (e : E) (m : List (K × E)) → get k m ≡ none → length (set k e m) ≡ length m + 1
  unfolding set get
  length-set_new k e [] h = omega arith
  length-set_new k e ((j, c) ∷ m) h = ground (arith, length-set_new k e m)

  pub length-pop-le : (k : K) (m : List (K × E)) → length (pop k m) ≤ length m
  unfolding pop
  length-pop-le k [] = omega arith
  length-pop-le k ((j, d) ∷ m) = ground (arith, length-pop-le k m)

  pub length-pop :
      (k : K) (d : E) (m : List (K × E)) → get k m ≡ some d → length (pop k m) + 1 ≡ length m
  unfolding pop get
  length-pop k d [] h = absurd (ground arith)
  length-pop k d ((j, c) ∷ m) h = ground (arith, length-pop k d m)

  pub get-append_none :
      (q k : K) (e : E) (m : List (K × E))
      → get q m ≡ none
      → q ≢ k
      → get q (m ++ (k, e) ∷ []) ≡ none
  unfolding get
  get-append_none q k e [] h n = ground arith
  get-append_none q k e ((j, d) ∷ m) h n = ground (arith, get-append_none q k e m)

  pub append-IsDict :
      (k : K) (e : E) (m : List (K × E)) → get k m ≡ none → IsDict m → IsDict (m ++ (k, e) ∷ [])
  unfolding get
  append-IsDict k e [] h d = (refl, tt)
  append-IsDict k e ((j, c) ∷ m) h d = elim (dec j k) [
    | yes p ↦ absurd (ground arith)
    | no p ↦ (get-append_none j k e m d.0 p, append-IsDict k e m (ground arith) d.1)
  ]

  pub length-set-le : (k : K) (e : E) (m : List (K × E)) → length (set k e m) ≤ length m + 1
  unfolding set
  length-set-le k e [] = omega arith
  length-set-le k e ((j, c) ∷ m) = ground (arith, length-set-le k e m)
