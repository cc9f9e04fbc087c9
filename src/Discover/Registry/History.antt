-- ===== src/Discover/Registry/History.antt =====
-- What InMemoryServiceRegistry of src/aduib_rpc/discover/registry/in_memory.py lists after a
-- history of calls.
use Prim.Native.String.{String}
use mathlib.Core.Logic.{ite, if_pos, if_neg}
use aduib_rpc.Prelude.{
  List, Option, Option-cases, [], inl, inr, none, refl, some, sym, text_dec, ◌++◌, ◌∷◌, ◌≡◌, ap,
  ◌∙◌, ◌≢◌, ◌⊎◌, ℕ,
}
use aduib_rpc.Prelude.Dict
use aduib_rpc.Discover.Instance.{ServiceInstance}
use aduib_rpc.Discover.LoadBalance.Rotation.{first_weighted, first-weighted_pool}
use aduib_rpc.Discover.LoadBalance.{select_weighted}
use aduib_rpc.Discover.Registry.{
  option_selection, discover_service, weighted_round_robin, Services, list_instances,
  register_service, unregister_service, instances_or_empty, unregister_found,
}

pub data Request : Type 0 where
  register unregister : ServiceInstance → Request

-- A call that raises leaves the registry as it was.
kept : Services → Option Services → Services
kept m none = m
kept m (some m') = m'

unfoldable pub apply : Request → Services → Services
unfolding kept
apply (register i) m = register_service i m
apply (unregister i) m = kept m (unregister_service i m)

unfoldable pub apply_all : List Request → Services → Services
unfolding apply
apply_all [] m = m
apply_all (r ∷ rs) m = apply_all rs (apply r m)

-- What is registered under a name: a registration adds its instance, and an unregistration of any
-- instance of the name takes all of them away.
unfoldable pub registered : String → List Request → List ServiceInstance → List ServiceInstance
registered name [] is = is
registered name (register i ∷ rs) is =
    registered name rs (ite (text_dec i.service_name name) (is ++ i ∷ []) is)
registered name (unregister i ∷ rs) is =
    registered name rs (ite (text_dec i.service_name name) [] is)

apply-IsDict :
    (r : Request) (m : Services) → Dict.IsDict text_dec m → Dict.IsDict text_dec (apply r m)
unfolding apply register_service unregister_service
apply-IsDict (register i) m d = Dict.set-IsDict text_dec i.service_name _ m d
apply-IsDict (unregister i) m d = elim (Option-cases (Dict.get text_dec i.service_name m)) [
  | inl e ↦ rw (e, unregister_found, kept) d
  | inr (is, e) ↦ rw (e, unregister_found, kept) (Dict.pop-IsDict text_dec i.service_name m d)
]

list-register :
    (name : String) (i : ServiceInstance) (m : Services)
    → list_instances name (register_service i m)
      ≡ ite (text_dec i.service_name name) (list_instances name m ++ i ∷ []) (list_instances name m)
unfolding list_instances register_service instances_or_empty
list-register name i m = elim (text_dec i.service_name name) [
  | yes p ↦
      rw (if_pos _ p, sym p)
        (ap instances_or_empty
          (Dict.get-set_self text_dec i.service_name (list_instances i.service_name m ++ i ∷ []) m))
  | no p ↦ rw (if_neg _ p) (
      ap instances_or_empty (
        Dict.get-set_ne text_dec i.service_name name (list_instances i.service_name m ++ i ∷ []) m
          (λ e. p (sym e))))
]

list-unregister :
    (name : String) (i : ServiceInstance) (m : Services)
    → Dict.IsDict text_dec m
    → list_instances name (apply (unregister i) m)
      ≡ ite (text_dec i.service_name name) [] (list_instances name m)
unfolding list_instances unregister_service apply unregister_found kept instances_or_empty
list-unregister name i m d = elim (Option-cases (Dict.get text_dec i.service_name m)) [
  | inl e ↦
      rw (e, unregister_found, kept)
        (elim (text_dec i.service_name name) [
          | yes p ↦ rw (if_pos _ p) (rw (sym p, e, instances_or_empty) refl)
          | no p ↦ rw (if_neg _ p) refl
        ])
  | inr (is, e) ↦
      rw (e, unregister_found, kept)
        (elim (text_dec i.service_name name) [
          | yes p ↦ rw (if_pos _ p) (rw (sym p, Dict.get-pop_self text_dec i.service_name m d) refl)
          | no p ↦
              rw (if_neg _ p)
                (rw (Dict.get-pop_ne text_dec i.service_name name m (λ q. p (sym q))) refl)
        ])
]

list_of_history :
    (name : String) (rs : List Request) (m : Services)
    → Dict.IsDict text_dec m
    → list_instances name (apply_all rs m) ≡ registered name rs (list_instances name m)
unfolding apply_all registered
list_of_history name [] m d = refl
list_of_history name (register i ∷ rs) m d =
    list_of_history name rs (apply (register i) m) (apply-IsDict (register i) m d)
    ∙ ap (registered name rs) (list-register name i m)
list_of_history name (unregister i ∷ rs) m d =
    list_of_history name rs (apply (unregister i) m) (apply-IsDict (unregister i) m d)
    ∙ ap (registered name rs) (list-unregister name i m d)

-- After any calls on a new registry `list_instances` gives, in order, the instances registered
-- under the name since the last unregistration of any instance of that name, which takes all of
-- them away.
pub list_instances-registered :
    (name : String) (rs : List Request)
    → list_instances name (apply_all rs []) ≡ registered name rs []
unfolding list_instances Dict.get
list_instances-registered name rs = list_of_history name rs [] tt

apply_all-IsDict :
    (rs : List Request) (m : Services)
    → Dict.IsDict text_dec m
    → Dict.IsDict text_dec (apply_all rs m)
unfolding apply_all
apply_all-IsDict [] m d = d
apply_all-IsDict (r ∷ rs) m d = apply_all-IsDict rs (apply r m) (apply-IsDict r m d)

-- What an unregistration does: it raises where nothing is listed under the name, and otherwise
-- leaves nothing there and other names as they were.
abbrev pub Unregisters : ServiceInstance → Services → Type 0
Unregisters i m =
    ((unregister_service i m ≡ none) × (list_instances i.service_name m ≡ []))
    ⊎ ((m' : Services) × (unregister_service i m ≡ some m')
        × (list_instances i.service_name m' ≡ [])
        × ((name : String)
            → name ≢ i.service_name
            → list_instances name m' ≡ list_instances name m))

unregisters : (i : ServiceInstance) (m : Services) → Dict.IsDict text_dec m → Unregisters i m
unfolding unregister_service unregister_found list_instances instances_or_empty
unregisters i m d = elim (Option-cases (Dict.get text_dec i.service_name m)) [
  | inl e ↦ inl (ap (λ o. unregister_found o i m) e, ap instances_or_empty e)
  | inr (is, e) ↦ inr (
    Dict.pop text_dec i.service_name m,
    ap (λ o. unregister_found o i m) e,
    ap instances_or_empty (Dict.get-pop_self text_dec i.service_name m d),
    λ name n. ap instances_or_empty (Dict.get-pop_ne text_dec i.service_name name m n),
  )
]

-- Unregistering an instance under whose name nothing is registered raises, and where something is,
-- no instance of the name is listed afterwards, while other names list what they did.
pub unregister_service_lem :
    (i : ServiceInstance) (rs : List Request) → Unregisters i (apply_all rs [])
unregister_service_lem i rs = unregisters i (apply_all rs []) (apply_all-IsDict rs [] tt)

-- Under the weighted policy a registry gives, at every call, the first instance with a weight among
-- those registered under the name, and None where there is none.
pub discover_service_weighted :
    (md5 : String → ℕ) (show : ℕ → String) (draw : ℕ → ℕ) (name : String) (rs : List Request)
    → discover_service md5 show draw weighted_round_robin name (apply_all rs [])
      ≡ option_selection (first_weighted (registered name rs []))
unfolding discover_service select_weighted
discover_service_weighted md5 show draw name rs = ap option_selection (
    first-weighted_pool (list_instances name (apply_all rs []))
    ∙ ap first_weighted (list_instances-registered name rs))
