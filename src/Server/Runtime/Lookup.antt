-- ===== src/Server/Runtime/Lookup.antt =====
-- The lookups of src/aduib_rpc/server/rpc_execution/runtime.py through the parents of a runtime.
use Prim.Native.String.{String}
use mathlib.Core.Path.{subst}
use aduib_rpc.Prelude.{
  List, Option, [], ap, arith, get_elem?, none, refl, some, suc, sym, text_dec, zero, ℕ, ◌<◌, ◌∙◌,
  ◌∷◌, ◌≡◌, ◌≢◌,
}
use aduib_rpc.Prelude.Dict
use aduib_rpc.Server.Runtime.{
  ScopedRuntime, Registry, registry, get, own_or, found_or, of_parent, set_at, register_parent,
  service, client, service_instance, client_instance,
}

module _ {F : Type 0} where
  -- Every parent is an older runtime than its child, as `child` makes them.
  pub record IsScoped (h : List (ScopedRuntime F)) : Type 0 where
    pub older :
        (a : ℕ) (r : ScopedRuntime F) (p : ℕ) → get_elem? h a ≡ some r → r.parent ≡ some p → p < a

  -- The runtimes from an address upwards.
  parents : Option ℕ → (ℕ → List (ScopedRuntime F)) → List (ScopedRuntime F)
  parents none up = []
  parents (some p) up = up p

  above : Option (ScopedRuntime F) → (ℕ → List (ScopedRuntime F)) → List (ScopedRuntime F)
  unfolding parents
  above none up = []
  above (some r) up = r ∷ parents r.parent up

  unfoldable pub scopes : ℕ → ℕ → List (ScopedRuntime F) → List (ScopedRuntime F)
  unfolding above
  scopes zero a h = []
  scopes (suc n) a h = above (get_elem? h a) (λ p. scopes n p h)

  -- What the first of some runtimes that has a name has under it.
  hit_or : Option F → Option F → Option F
  hit_or (some f) rest = some f
  hit_or none rest = rest

  unfoldable pub first_with : Registry → String → List (ScopedRuntime F) → Option F
  unfolding hit_or
  first_with k name [] = none
  first_with k name (r ∷ rs) = hit_or (Dict.get text_dec name (registry k r)) (first_with k name rs)

  of_parent_lem :
      (k : Registry) (name : String) (q : Option ℕ) (f : ℕ → Option (Option F))
      (up : ℕ → List (ScopedRuntime F))
      → ((p : ℕ) → q ≡ some p → f p ≡ some (first_with k name (up p)))
      → of_parent q f ≡ some (first_with k name (parents q up))
  unfolding of_parent parents first_with
  of_parent_lem k name none f up e = refl
  of_parent_lem k name (some p) f up e = e p refl

  found_or_lem :
      (o : Option F) (m : Option (Option F)) (t : Option F)
      → m ≡ some t
      → found_or o m ≡ some (hit_or o t)
  unfolding found_or hit_or
  found_or_lem none m t e = e
  found_or_lem (some f) m t e = refl

  own_or_lem :
      (k : Registry) (name : String) (f : ℕ → Option (Option F)) (up : ℕ → List (ScopedRuntime F))
      (o : Option (ScopedRuntime F))
      → ((r : ScopedRuntime F) (p : ℕ)
          → o ≡ some r
          → r.parent ≡ some p
          → f p ≡ some (first_with k name (up p)))
      → own_or k name o f ≡ some (first_with k name (above o up))
  unfolding own_or above first_with
  own_or_lem k name f up none e = refl
  own_or_lem k name f up (some r) e =
      found_or_lem (Dict.get text_dec name (registry k r)) _ _
        (of_parent_lem k name r.parent f up (λ p t. e r p refl t))

  -- If every parent is an older runtime than its child, as `child` makes them but `register_parent`
  -- need not, then a lookup ends, with no more calls than the runtime's address and one, and finds
  -- what the first runtime that has the name has under it, from the runtime itself up through its
  -- parents.
  pub get_lem :
      (k : Registry) (name : String) (n a : ℕ) (h : List (ScopedRuntime F))
      → IsScoped h
      → a < n
      → get k name n a h ≡ some (first_with k name (scopes n a h))
  unfolding get scopes
  get_lem k name zero a h w l = absurd (omega (arith, l))
  get_lem k name (suc n) a h w l =
      own_or_lem k name (λ p. get k name n p h) (λ p. scopes n p h) (get_elem? h a)
        (λ r p e up. get_lem k name n p h w (omega (arith, l, w.older a r p e up)))

  -- That a lookup from one runtime comes to another.
  pub data Reaches (h : List (ScopedRuntime F)) : ℕ → ℕ → Type 0 where
    here : (a : ℕ) → Reaches h a a
    up :
        (b a p : ℕ) (r : ScopedRuntime F)
        → get_elem? h b ≡ some r
        → r.parent ≡ some p
        → Reaches h p a
        → Reaches h b a

  pub get_elem-set_at_ne :
      (a b : ℕ) (r : ScopedRuntime F) (h : List (ScopedRuntime F))
      → b ≢ a
      → get_elem? (set_at a r h) b ≡ get_elem? h b
  unfolding set_at
  get_elem-set_at_ne a b r [] n = refl
  get_elem-set_at_ne zero zero r (q ∷ h) n = absurd (n refl)
  get_elem-set_at_ne zero (suc b) r (q ∷ h) n = refl
  get_elem-set_at_ne (suc a) zero r (q ∷ h) n = refl
  get_elem-set_at_ne (suc a) (suc b) r (q ∷ h) n = get_elem-set_at_ne a b r h (λ e. n (ap suc e))

  of_parent-same :
      (q : Option ℕ) (f g : ℕ → Option (Option F))
      → ((p : ℕ) → q ≡ some p → f p ≡ g p)
      → of_parent q f ≡ of_parent q g
  unfolding of_parent
  of_parent-same none f g e = refl
  of_parent-same (some p) f g e = e p refl

  own_or-same :
      (k : Registry) (name : String) (o : Option (ScopedRuntime F)) (f g : ℕ → Option (Option F))
      → ((r : ScopedRuntime F) (p : ℕ) → o ≡ some r → r.parent ≡ some p → f p ≡ g p)
      → own_or k name o f ≡ own_or k name o g
  unfolding own_or
  own_or-same k name none f g e = refl
  own_or-same k name (some r) f g e =
      ap (found_or (Dict.get text_dec name (registry k r)))
        (of_parent-same r.parent f g (λ p t. e r p refl t))

  -- A change of a runtime is seen by no lookup that does not come to it: not by its parents, its
  -- siblings, or their other children.
  pub get-set_at :
      (k : Registry) (name : String) (n a b : ℕ) (r : ScopedRuntime F) (h : List (ScopedRuntime F))
      → ¬ (Reaches h b a)
      → get k name n b (set_at a r h) ≡ get k name n b h
  unfolding get
  get-set_at k name zero a b r h apart = refl
  get-set_at k name (suc n) a b r h apart =
      ap (λ o. own_or k name o (λ p. get k name n p (set_at a r h)))
        (get_elem-set_at_ne a b r h (λ e. apart (subst (λ b. Reaches h b a) (sym e) (here a))))
      ∙ own_or-same k name (get_elem? h b) _ _
          (λ q p e t. get-set_at k name n a p r h (λ reach. apart (up b a p q e t reach)))

  get_elem-set_at :
      (a : ℕ) (r s : ScopedRuntime F) (h : List (ScopedRuntime F))
      → get_elem? h a ≡ some s
      → get_elem? (set_at a r h) a ≡ some r
  unfolding set_at
  get_elem-set_at a r s [] e = absurd (ground arith)
  get_elem-set_at zero r s (q ∷ h) e = refl
  get_elem-set_at (suc a) r s (q ∷ h) e = get_elem-set_at a r s h e

  own_or_parent :
      (k : Registry) (name : String) (r : ScopedRuntime F) (p : ℕ) (o : Option (ScopedRuntime F))
      (ask : ℕ → Option (Option F))
      → o ≡ some (record r { parent = some p })
      → Dict.get text_dec name (registry k (record r { parent = some p })) ≡ none
      → own_or k name o ask ≡ ask p
  unfolding own_or found_or of_parent
  own_or_parent k name r p o ask e missing = rw (e, missing) refl

  same_registry :
      (k : Registry) (r : ScopedRuntime F) (p : ℕ)
      → registry k (record r { parent = some p }) ≡ registry k r
  unfolding registry
  same_registry service r p = refl
  same_registry client r p = refl
  same_registry service_instance r p = refl
  same_registry client_instance r p = refl

  registered_parent :
      (p : ℕ) (r s : ScopedRuntime F) (o : Option ℕ)
      → r.parent ≡ o
      → register_parent p r ≡ some s
      → s ≡ record r { parent = some p }
  unfolding register_parent
  registered_parent p r s o e h = ground arith

  -- `register_parent` takes a runtime as its own parent, and a lookup in that runtime of a name that
  -- it does not have then never ends, however many calls it may make.
  pub endless_lookup :
      (k : Registry) (name : String) (a : ℕ) (r s : ScopedRuntime F) (h : List (ScopedRuntime F))
      → get_elem? h a ≡ some r
      → register_parent a r ≡ some s
      → Dict.get text_dec name (registry k r) ≡ none
      → (n : ℕ) → get k name n a (set_at a s h) ≡ none
  unfolding get
  endless_lookup k name a r s h at parent missing zero = refl
  endless_lookup k name a r s h at parent missing (suc n) =
      own_or_parent k name r a (get_elem? (set_at a s h) a) (λ p. get k name n p (set_at a s h))
        (get_elem-set_at a s r h at ∙ ap some (registered_parent a r s r.parent refl parent))
        (ap (Dict.get text_dec name) (same_registry k r a) ∙ missing)
      ∙ endless_lookup k name a r s h at parent missing n
