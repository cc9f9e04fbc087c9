-- ===== src/Discover/Ring/Disruption.antt =====
-- Which instance ConsistentHashLB of src/aduib_rpc/discover/load_balance/load_balance.py selects,
-- and what it selects when instances come and go.
use Prim.Native.String.{String}
use native.Mathlib.Decide.{ℕ_discrete}
use aduib_rpc.Prelude.{
  List, Option, [], arith, get_elem?, none, refl, some, ℕ, ◌∷◌, ◌≡◌, ap, ◌∙◌, inl, inr, suc, zero,
  ◌++◌, ◌⊎◌,
}
use aduib_rpc.Prelude.Dict
use aduib_rpc.Discover.Instance.{ServiceInstance}
use aduib_rpc.Discover.Ring.{
  Ring, Selection, nothing, selected, select_instance, select_in, node_at, selection_of, index_for,
  init_hash_ring, empty_ring, node_key, sort,
}
use aduib_rpc.Discover.Ring.Nodes.{
  add_nodes_keys, nodes_of, nearest_node-append, all_nodes-append, Node, all_nodes, nearest_node,
  nearer_node, add_instances_nodes, get-nearest_node, keys_of, nearest_keys, key_of, add_nodes_keys,
  add_nodes,
}
use aduib_rpc.Discover.Ring.Nearest.{get_elem?-sort}

-- The instance of a node that may be missing.
unfoldable pub as_selection : Option Node → Selection
as_selection none = nothing
as_selection (some n) = selected n.1

not_missing : (h : ℕ) (n : Node) (o : Option Node) → nearer_node h (some n) o ≡ none → ⊥
unfolding nearer_node
not_missing h n none e = cc
not_missing h n (some m) e = ground arith

nearest-empty : (h : ℕ) (ns : List Node) → nearest_node h ns ≡ none → ns ≡ []
unfolding nearest_node
nearest-empty h [] e = refl
nearest-empty h (n ∷ ns) e = absurd (not_missing h n (nearest_node h ns) e)

module _ (md5 : String → ℕ) (show : ℕ → String) (draw : ℕ → ℕ) where
  select_found :
      (key : String) (r : Ring) (m : List Node) (k : ℕ) (i : ServiceInstance)
      → Dict.get ℕ_discrete k m ≡ some i
      → get_elem? r.keys (index_for r.keys (md5 key)) ≡ some k
      → Dict.get ℕ_discrete k r.ring ≡ some i
      → select_in md5 show draw (some key) r m ≡ selected i
  unfolding select_in node_at selection_of Dict.get
  select_found key r [] k i g e f = cc
  select_found key r (n ∷ ns) k i g e f = rw (e, node_at, f, selection_of) refl

  select_node :
      (key : String) (o : Option Node) (n : ℕ) (is : List ServiceInstance)
      → nearest_node (md5 key) (all_nodes md5 show n is) ≡ o
      → select_instance md5 show n draw (some key) is ≡ as_selection o
  unfolding select_instance init_hash_ring as_selection select_in add_nodes
  select_node key none n is e =
      rw
        (
          add_instances_nodes md5 show n is empty_ring,
          nearest-empty (md5 key) (all_nodes md5 show n is) e,
        )
        refl
  select_node key (some (k, i)) n is e =
      let ns = all_nodes md5 show n is in
      let found = get-nearest_node (md5 key) k i ns empty_ring e in
      let at = get_elem?-sort (md5 key) (keys_of ns) ∙ nearest_keys (md5 key) ns ∙ ap key_of e in
      rw (add_instances_nodes md5 show n is empty_ring) (
        rw (add_nodes_keys ns empty_ring) (
          select_found key
            (record { ring = (add_nodes ns empty_ring).ring; keys = sort (keys_of ns) })
            (add_nodes ns empty_ring).ring k i found at found))

  -- With a key, `select_instance` gives the instance of the virtual node that the key's hash falls
  -- to, the nearest one clockwise, and None exactly where there is no virtual node; its lookups in
  -- the ring never fail.
  pub select_nearest :
      (key : String) (n : ℕ) (is : List ServiceInstance)
      → select_instance md5 show n draw (some key) is
        ≡ as_selection (nearest_node (md5 key) (all_nodes md5 show n is))
  select_nearest key n is =
      select_node key (nearest_node (md5 key) (all_nodes md5 show n is)) n is refl

-- All nodes of a list belong to an instance.
Owned : ServiceInstance → Option Node → Type 0
Owned j none = Unit
Owned j (some n) = n.1 ≡ j

nearer-Owned :
    (h : ℕ) (j : ServiceInstance) (a b : Option Node)
    → Owned j a
    → Owned j b
    → Owned j (nearer_node h a b)
unfolding Owned nearer_node
nearer-Owned h j none b p q = q
nearer-Owned h j (some a) none p q = p
nearer-Owned h j (some a) (some b) p q = ground arith

dropped :
    (h : ℕ) (j : ServiceInstance) (a o b : Option Node)
    → Owned j o
    → let all = as_selection (nearer_node h a (nearer_node h o b)) in
      (all ≡ selected j) ⊎ (all ≡ as_selection (nearer_node h a b))
unfolding Owned nearer_node as_selection
dropped h j a none b p = inr refl
dropped h j none (some n) none p = inl (ap selected p)
dropped h j none (some n) (some b) p = ground arith
dropped h j (some a) (some n) none p = ground arith
dropped h j (some a) (some n) (some b) p = ground arith

module _ (md5 : String → ℕ) (show : ℕ → String) (draw : ℕ → ℕ) where
  nearest-Owned : (h n : ℕ) (j : ServiceInstance) → Owned j (nearest_node h (nodes_of md5 show n j))
  unfolding nodes_of nearest_node nearer_node Owned
  nearest-Owned h zero j = tt
  nearest-Owned h (suc n) j =
      rw (nearest_node-append h (nodes_of md5 show n j) ((node_key md5 show j n, j) ∷ [])) (
        nearer-Owned h j (nearest_node h (nodes_of md5 show n j)) (some (node_key md5 show j n, j))
          (nearest-Owned h n j) refl)

  nearest_split :
      (h n : ℕ) (j : ServiceInstance) (xs ys : List ServiceInstance)
      → nearest_node h (all_nodes md5 show n (xs ++ j ∷ ys))
        ≡ nearer_node h (nearest_node h (all_nodes md5 show n xs)) (
            nearer_node h
              (nearest_node h (nodes_of md5 show n j))
              (nearest_node h (all_nodes md5 show n ys)))
  unfolding all_nodes
  nearest_split h n j xs ys =
      rw
        (
          all_nodes-append md5 show n xs (j ∷ ys),
          nearest_node-append h (all_nodes md5 show n xs) (all_nodes md5 show n (j ∷ ys)),
          nearest_node-append h (nodes_of md5 show n j) (all_nodes md5 show n ys),
        )
        refl

  -- An instance that comes or goes moves only its own keys: among instances one of which is `j` a
  -- key selects `j`, or what it selects without `j`.
  pub minimal_disruption :
      (key : String) (n : ℕ) (j : ServiceInstance) (xs ys : List ServiceInstance)
      → let all = select_instance md5 show n draw (some key) (xs ++ j ∷ ys) in
        (all ≡ selected j) ⊎ (all ≡ select_instance md5 show n draw (some key) (xs ++ ys))
  minimal_disruption key n j xs ys =
      let h = md5 key in
      rw
        (
          select_nearest md5 show draw key n (xs ++ j ∷ ys),
          select_nearest md5 show draw key n (xs ++ ys),
          nearest_split h n j xs ys,
          all_nodes-append md5 show n xs ys,
          nearest_node-append h (all_nodes md5 show n xs) (all_nodes md5 show n ys),
        )
        (dropped h j (nearest_node h (all_nodes md5 show n xs))
          (nearest_node h (nodes_of md5 show n j)) (nearest_node h (all_nodes md5 show n ys))
          (nearest-Owned h n j))
