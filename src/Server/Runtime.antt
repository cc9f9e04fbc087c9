-- ===== src/Server/Runtime.antt =====
-- ScopedRuntime and the context managers of src/aduib_rpc/server/rpc_execution/runtime.py. Runtimes
-- refer to their parents, so they live in a store, a list in which a new runtime goes to the end;
-- F is the type of what is registered. ContextVar is used as documented: a token keeps the value
-- before its `set`, and `reset` brings that back.
pub mod Lookup
use Prim.Native.String.{String}
use aduib_rpc.Prelude.{
  List, Option, [], get_elem?, length, none, some, suc, text_dec, truthy_text, zero, ℕ, ◌++◌, ◌>>=◌,
  ◌∷◌,
}
use mathlib.Core.Option as Opt
use aduib_rpc.Prelude.Dict

pub record ScopedRuntime (F : Type 0) : Type 0 where
  pub tenant_id : String
  pub service_funcs : List (String × F)
  pub client_funcs : List (String × F)
  pub interceptors : List F
  pub parent : Option ℕ
  pub service_instances : List (String × F)
  pub client_instances : List (String × F)
  pub service_info : Option F
  pub credentials_provider : Option F
  pub auth_scheme : Option F
  pub security_scheme : Option F
  pub config : Option F

-- The four registries, and `in` of the methods that serve each of them.
pub data Registry : Type 0 where
  service client service_instance client_instance : Registry

module _ {F : Type 0} where
  unfoldable pub registry : Registry → ScopedRuntime F → List (String × F)
  registry service r = r.service_funcs
  registry client r = r.client_funcs
  registry service_instance r = r.service_instances
  registry client_instance r = r.client_instances

  unfoldable pub with_registry : Registry → List (String × F) → ScopedRuntime F → ScopedRuntime F
  with_registry service m r = record r { service_funcs = m }
  with_registry client m r = record r { client_funcs = m }
  with_registry service_instance m r = record r { service_instances = m }
  with_registry client_instance m r = record r { client_instances = m }

  -- `create_runtime`.
  unfoldable pub create_runtime : ScopedRuntime F
  create_runtime = record {
    tenant_id = "default";
    service_funcs = [];
    client_funcs = [];
    interceptors = [];
    parent = none;
    service_instances = [];
    client_instances = [];
    service_info = none;
    credentials_provider = none;
    auth_scheme = none;
    security_scheme = none;
    config = none;
  }

  -- `child`, of the runtime at an address: the registries are copied by `dict` and `list`, so that no
  -- two runtimes share one and each is a value of its runtime; the config is not passed.
  unfoldable pub child : ℕ → Option String → ScopedRuntime F → ScopedRuntime F
  child self tenant_id r = record r {
    tenant_id = Opt.get_or (truthy_text tenant_id) r.tenant_id;
    parent = some self;
    config = none;
  }

  -- `register_service`, `register_client`, `register_service_instance` and
  -- `register_client_instance`: `none` is the ValueError.
  register_new : Registry → String → F → Option F → ScopedRuntime F → Option (ScopedRuntime F)
  unfolding registry with_registry
  register_new k name func (some old) r = none
  register_new k name func none r =
      some (with_registry k (Dict.set text_dec name func (registry k r)) r)

  unfoldable pub register : Registry → String → F → ScopedRuntime F → Option (ScopedRuntime F)
  unfolding register_new registry
  register k name func r = register_new k name func (Dict.get text_dec name (registry k r)) r

  unfoldable pub register_interceptor : F → ScopedRuntime F → ScopedRuntime F
  register_interceptor i r = record r { interceptors = r.interceptors ++ i ∷ [] }

  -- `register_parent`: `none` is the ValueError.
  unfoldable pub register_parent : ℕ → ScopedRuntime F → Option (ScopedRuntime F)
  register_parent p r = elim r.parent [
    | none ↦ some (record r { parent = some p })
    | some old ↦ none
  ]

  unfoldable pub clear_parent : ScopedRuntime F → ScopedRuntime F
  clear_parent r = record r { parent = none }

  -- `reset`; the parent, the tenant and the config stay too.
  unfoldable pub reset : ScopedRuntime F → ScopedRuntime F
  reset r = record r {
    service_funcs = [];
    client_funcs = [];
    interceptors = [];
    service_instances = [];
    client_instances = [];
    credentials_provider = none;
    auth_scheme = none;
    security_scheme = none;
  }

  unfoldable pub set_credentials_provider : Option F → ScopedRuntime F → ScopedRuntime F
  set_credentials_provider p r = record r { credentials_provider = p }

  -- The store with a runtime changed.
  unfoldable pub set_at : ℕ → ScopedRuntime F → List (ScopedRuntime F) → List (ScopedRuntime F)
  set_at a r [] = []
  set_at zero r (q ∷ h) = r ∷ h
  set_at (suc a) r (q ∷ h) = q ∷ set_at a r h

  -- `get_service` and the like, of the runtime at an address: its own registry, and then its
  -- parent's, as far as the fuel goes; without fuel it is the RecursionError, `none`.
  found_or : Option F → Option (Option F) → Option (Option F)
  found_or (some func) rest = some (some func)
  found_or none rest = rest

  of_parent : Option ℕ → (ℕ → Option (Option F)) → Option (Option F)
  of_parent none ask = some none
  of_parent (some p) ask = ask p

  own_or :
      Registry → String → Option (ScopedRuntime F) → (ℕ → Option (Option F)) → Option (Option F)
  unfolding registry found_or of_parent
  own_or k name none ask = some none
  own_or k name (some r) ask =
      found_or (Dict.get text_dec name (registry k r)) (of_parent r.parent ask)

  unfoldable pub get : Registry → String → ℕ → ℕ → List (ScopedRuntime F) → Option (Option F)
  unfolding own_or
  get k name zero a h = none
  get k name (suc n) a h = own_or k name (get_elem? h a) (λ p. get k name n p h)

  -- `set_config`, which sets it in the parents too.
  config_at :
      F
      → ℕ
      → Option (ScopedRuntime F)
      → List (ScopedRuntime F)
      → (ℕ → List (ScopedRuntime F) → List (ScopedRuntime F))
      → List (ScopedRuntime F)
  unfolding set_at
  config_at c a none h up = h
  config_at c a (some r) h up =
      let h' = set_at a (record r { config = some c }) h in
      elim r.parent [ none ↦ h' | some p ↦ up p h' ]

  unfoldable pub set_config : F → ℕ → ℕ → List (ScopedRuntime F) → List (ScopedRuntime F)
  unfolding config_at
  set_config c zero a h = h
  set_config c (suc n) a h = config_at c a (get_elem? h a) h (λ p h. set_config c n p h)

-- The context: the store, the current runtime, and the tokens of the scopes that are entered.
pub record Context (F : Type 0) : Type 0 where
  pub store : List (ScopedRuntime F)
  pub current : ℕ
  pub tokens : List ℕ

module _ {F : Type 0} where
  -- `__enter__` of `with_runtime`, and of `with_tenant`, whose runtime is a new child.
  unfoldable pub enter_runtime : ℕ → Context F → Context F
  enter_runtime a x = record x { current = a; tokens = x.current ∷ x.tokens }

  child_store :
      String → ℕ → List (ScopedRuntime F) → Option (ScopedRuntime F) → List (ScopedRuntime F)
  unfolding child
  child_store tenant a h none = h
  child_store tenant a h (some r) = h ++ child a (some tenant) r ∷ []

  unfoldable pub enter_tenant : String → Context F → Context F
  unfolding child_store enter_runtime
  enter_tenant tenant x =
      enter_runtime (length x.store)
        (record x { store = child_store tenant x.current x.store (get_elem? x.store x.current) })

  -- `__exit__`.
  leave_by : List ℕ → Context F → Context F
  leave_by [] x = x
  leave_by (a ∷ tokens) x = record x { current = a; tokens = tokens }

  unfoldable pub leave_scope : Context F → Context F
  unfolding leave_by
  leave_scope x = leave_by x.tokens x

  -- A registration in the current runtime; where it raises nothing changes.
  store_with : Context F → Option (ScopedRuntime F) → Context F
  unfolding set_at
  store_with x none = x
  store_with x (some r) = record x { store = set_at x.current r x.store }

  unfoldable pub register_current : Registry → String → F → Context F → Context F
  unfolding store_with register
  register_current k name func x =
      store_with x (get_elem? x.store x.current >>= register k name func)
