-- ===== src/Tests/Runtime.antt =====
-- src/aduib_rpc/server/rpc_execution/runtime.py on concrete runtimes, whose functions are numbers.
use aduib_rpc.Prelude.{
  List, [], arith, get_elem?, none, refl, some, text_dec, ℕ, ◌<◌, ◌∷◌, ◌≡◌, suc, zero,
}
use aduib_rpc.Prelude.Dict
use aduib_rpc.Server.Runtime.{
  ScopedRuntime, create_runtime, child, register, registry, get, set_at, service, set_config,
  register_parent,
}
use aduib_rpc.Server.Runtime.Lookup.{
  IsScoped, first_with, scopes, get_lem, Reaches, up, endless_lookup,
}

abbrev base : ScopedRuntime ℕ
unfolding create_runtime
base = record create_runtime { service_funcs = ("f", 1) ∷ []; config = some 7 }

abbrev tenant : ScopedRuntime ℕ
unfolding child
tenant = child 0 (some "acme") base

abbrev store : List (ScopedRuntime ℕ)
store = base ∷ tenant ∷ []

-- The config is not passed to a child.
child_config : tenant.config ≡ none
unfolding tenant base child create_runtime
child_config = refl

-- A child cannot register what its parent had when it was made.
child_taken : register service "f" 2 tenant ≡ none
unfolding register registry Dict.get text_dec child create_runtime tenant base
child_taken = refl

-- The config of a child is set in its parent too.
config_shared : get_elem? (set_config 9 2 1 store) 0 ≡ some (record base { config = some 9 })
unfolding set_config set_at child create_runtime tenant base
config_shared = refl

store_older :
    (a : ℕ) (r : ScopedRuntime ℕ) (p : ℕ) → get_elem? store a ≡ some r → r.parent ≡ some p → p < a
unfolding tenant base child create_runtime
store_older zero r p e t = absurd (ground arith)
store_older (suc zero) r p e t = ground arith
store_older (suc (suc a)) r p e t = absurd (ground arith)

store-IsScoped : IsScoped store
store-IsScoped = record { older = store_older }

get_lem_example : get service "f" 2 1 store ≡ some (first_with service "f" (scopes 2 1 store))
get_lem_example = get_lem service "f" 2 1 store store-IsScoped (omega arith)

base_alone : ¬ (Reaches store 0 1)
base_alone (up _ _ p r e t q) = absurd (omega (arith, store_older 0 r p e t))

-- A runtime that is its own parent.
abbrev looped : ScopedRuntime ℕ
looped = record base { parent = some 0 }

own_parent : register_parent 0 base ≡ some looped
unfolding register_parent create_runtime base
own_parent = refl

not_there : Dict.get text_dec "g" (registry service base) ≡ none
unfolding Dict.get registry base create_runtime text_dec
not_there = refl

endless_lookup_example : get service "g" 1000 0 (set_at 0 looped store) ≡ none
endless_lookup_example =
    endless_lookup service "g" 0 base looped store refl own_parent not_there 1000
