-- ===== src/Discover/Ring/Nodes.antt =====
-- The virtual nodes of the hash ring of src/aduib_rpc/discover/load_balance/load_balance.py as one
-- list: which node a hash falls to, where of nodes with one key the last one counts.
use Prim.Native.String.{String}
use native.Mathlib.Decide.{ℕ_discrete}
use mathlib.Core.Logic.{ite, if_pos, if_neg}
use mathlib.Core.List.{append_assoc, append-nil}
use aduib_rpc.Prelude.{
  List, Option, [], ap, none, refl, some, suc, sym, zero, ℕ, ◌++◌, ◌∙◌, ◌∷◌, ◌≡◌, arith,
  if◌then◌else◌, inl, inr, not, true, ◌&&◌, ◌==◌, ◌⊎◌,
}
use aduib_rpc.Prelude.Dict
use aduib_rpc.Discover.Instance.{ServiceInstance}
use aduib_rpc.Discover.Ring.{Ring, add_node, add_virtual, add_instances, node_key}
use aduib_rpc.Discover.Ring.Nearest.{no_later, nearer, nearest}

abbrev pub Node : Type 0
Node = ℕ × ServiceInstance

abbrev pub keys_of : List Node → List ℕ
keys_of [] = []
keys_of ((k, i) ∷ ns) = k ∷ keys_of ns

unfoldable pub add_nodes : List Node → Ring → Ring
add_nodes [] r = r
add_nodes ((k, i) ∷ ns) r = add_nodes ns (add_node k i r)

module _ (md5 : String → ℕ) (show : ℕ → String) where
  -- The nodes of one instance, and of all.
  unfoldable pub nodes_of : ℕ → ServiceInstance → List Node
  nodes_of zero inst = []
  nodes_of (suc n) inst = nodes_of n inst ++ (node_key md5 show inst n, inst) ∷ []

  unfoldable pub all_nodes : ℕ → List ServiceInstance → List Node
  unfolding nodes_of
  all_nodes n [] = []
  all_nodes n (inst ∷ is) = nodes_of n inst ++ all_nodes n is

add_nodes-append :
    (ms ns : List Node) (r : Ring) → add_nodes (ms ++ ns) r ≡ add_nodes ns (add_nodes ms r)
unfolding add_nodes
add_nodes-append [] ns r = refl
add_nodes-append ((k, i) ∷ ms) ns r = add_nodes-append ms ns (add_node k i r)

module _ (md5 : String → ℕ) (show : ℕ → String) where
  add_virtual_nodes :
      (n : ℕ) (inst : ServiceInstance) (r : Ring)
      → add_virtual md5 show n inst r ≡ add_nodes (nodes_of md5 show n inst) r
  unfolding add_virtual nodes_of add_nodes
  add_virtual_nodes zero inst r = refl
  add_virtual_nodes (suc n) inst r =
      ap (add_node (node_key md5 show inst n) inst) (add_virtual_nodes n inst r)
      ∙ sym (add_nodes-append (nodes_of md5 show n inst) ((node_key md5 show inst n, inst) ∷ []) r)

  pub add_instances_nodes :
      (n : ℕ) (is : List ServiceInstance) (r : Ring)
      → add_instances md5 show n is r ≡ add_nodes (all_nodes md5 show n is) r
  unfolding add_instances all_nodes add_nodes
  add_instances_nodes n [] r = refl
  add_instances_nodes n (inst ∷ is) r =
      add_instances_nodes n is (add_virtual md5 show n inst r)
      ∙ ap (add_nodes (all_nodes md5 show n is)) (add_virtual_nodes n inst r)
      ∙ sym (add_nodes-append (nodes_of md5 show n inst) (all_nodes md5 show n is) r)

  pub all_nodes-append :
      (n : ℕ) (xs ys : List ServiceInstance)
      → all_nodes md5 show n (xs ++ ys) ≡ all_nodes md5 show n xs ++ all_nodes md5 show n ys
  unfolding all_nodes
  all_nodes-append n [] ys = refl
  all_nodes-append n (x ∷ xs) ys =
      ap (λ l. nodes_of md5 show n x ++ l) (all_nodes-append n xs ys)
      ∙ sym
          (append_assoc (nodes_of md5 show n x) (all_nodes md5 show n xs) (all_nodes md5 show n ys))

pub add_nodes_keys : (ns : List Node) (r : Ring) → (add_nodes ns r).keys ≡ r.keys ++ keys_of ns
unfolding add_nodes add_node
add_nodes_keys [] r = sym (append-nil r.keys)
add_nodes_keys ((k, i) ∷ ns) r =
    add_nodes_keys ns (add_node k i r) ∙ append_assoc r.keys (k ∷ []) (keys_of ns)

-- The last node with a key, which is the one that the ring keeps.
abbrev instead : Option ServiceInstance → Option ServiceInstance → Option ServiceInstance
instead none b = b
instead (some a) b = some a

unfoldable pub last_of : ℕ → List Node → Option ServiceInstance
last_of q [] = none
last_of q ((k, i) ∷ ns) = instead (last_of q ns) (ite (ℕ_discrete k q) (some i) none)

instead_assoc : (a b c : Option ServiceInstance) → instead a (instead b c) ≡ instead (instead a b) c
instead_assoc none b c = refl
instead_assoc (some a) b c = refl

-- What a set writes, under an older value.
get-set-instead :
    (q k : ℕ) (i : ServiceInstance) (m : List Node)
    → Dict.get ℕ_discrete q (Dict.set ℕ_discrete k i m)
      ≡ instead (ite (ℕ_discrete k q) (some i) none) (Dict.get ℕ_discrete q m)
get-set-instead q k i m = elim (ℕ_discrete k q) [
  | yes p ↦ rw (if_pos _ p, p) (Dict.get-set_self ℕ_discrete q i m)
  | no p ↦ rw (if_neg _ p) (Dict.get-set_ne ℕ_discrete k q i m (λ e. p (sym e)))
]

get-add_nodes :
    (q : ℕ) (ns : List Node) (r : Ring)
    → Dict.get ℕ_discrete q (add_nodes ns r).ring
      ≡ instead (last_of q ns) (Dict.get ℕ_discrete q r.ring)
unfolding add_nodes last_of add_node
get-add_nodes q [] r = refl
get-add_nodes q ((k, i) ∷ ns) r =
    get-add_nodes q ns (add_node k i r)
    ∙ ap (instead (last_of q ns)) (get-set-instead q k i r.ring)
    ∙ instead_assoc (last_of q ns) (ite (ℕ_discrete k q) (some i) none)
        (Dict.get ℕ_discrete q r.ring)

-- The nearer of two nodes that may be missing: of nodes with one key the later.
unfoldable pub nearer_node : ℕ → Option Node → Option Node → Option Node
nearer_node h none b = b
nearer_node h (some a) none = some a
nearer_node h (some a) (some b) = if no_later h a.0 b.0 && not (a.0 == b.0) then some a else some b

-- The node that a hash falls to: the nearest clockwise.
unfoldable pub nearest_node : ℕ → List Node → Option Node
nearest_node h [] = none
nearest_node h (n ∷ ns) = nearer_node h (some n) (nearest_node h ns)

abbrev pub key_of : Option Node → Option ℕ
key_of none = none
key_of (some n) = some n.0

nearer_node_key :
    (h : ℕ) (n : Node) (o : Option Node)
    → nearer h (some n.0) (key_of o) ≡ key_of (nearer_node h (some n) o)
unfolding nearer nearer_node
nearer_node_key h (k, i) none = refl
nearer_node_key h (k, i) (some (m, j)) = ground arith

pub nearest_keys : (h : ℕ) (ns : List Node) → nearest h (keys_of ns) ≡ key_of (nearest_node h ns)
unfolding nearest nearest_node
nearest_keys h [] = refl
nearest_keys h ((k, i) ∷ ns) =
    ap (nearer h (some k)) (nearest_keys h ns) ∙ nearer_node_key h (k, i) (nearest_node h ns)

nearer_node_assoc :
    (h : ℕ) (a b c : Option Node)
    → nearer_node h a (nearer_node h b c) ≡ nearer_node h (nearer_node h a b) c
unfolding nearer_node
nearer_node_assoc h none b c = refl
nearer_node_assoc h (some a) none c = refl
nearer_node_assoc h (some a) (some b) none = ground arith
nearer_node_assoc h (some a) (some b) (some c) = ground arith

pub nearest_node-append :
    (h : ℕ) (ms ns : List Node)
    → nearest_node h (ms ++ ns) ≡ nearer_node h (nearest_node h ms) (nearest_node h ns)
unfolding nearest_node nearer_node
nearest_node-append h [] ns = refl
nearest_node-append h (m ∷ ms) ns =
    ap (nearer_node h (some m)) (nearest_node-append h ms ns)
    ∙ nearer_node_assoc h (some m) (nearest_node h ms) (nearest_node h ns)

-- The nearest node comes no later than any key that is there, and is the last of its key.
IsLeast : ℕ → ℕ → Option Node → Type 0
IsLeast h q none = ⊥
IsLeast h q (some n) = no_later h n.0 q ≡ true

IsLeast-step :
    (h q : ℕ) (n : Node) (o : Option Node)
    → (n.0 ≡ q) ⊎ IsLeast h q o
    → IsLeast h q (nearer_node h (some n) o)
unfolding IsLeast nearer_node
IsLeast-step h q (k, i) none (inl e) = ground arith
IsLeast-step h q (k, i) none (inr l) = absurd l
IsLeast-step h q (k, i) (some (m, j)) (inl e) = ground arith
IsLeast-step h q (k, i) (some (m, j)) (inr l) = ground arith

nearest_node-IsLeast :
    (h q : ℕ) (i : ServiceInstance) (ns : List Node)
    → last_of q ns ≡ some i
    → IsLeast h q (nearest_node h ns)
unfolding last_of nearest_node
nearest_node-IsLeast h q i [] e = absurd (ground arith)
nearest_node-IsLeast h q i ((k, j) ∷ ns) e = elim (ℕ_discrete k q) [
  | yes p ↦ IsLeast-step h q (k, j) (nearest_node h ns) (inl p)
  | no p ↦
      IsLeast-step h q (k, j) (nearest_node h ns)
        (inr (nearest_node-IsLeast h q i ns (ground arith)))
]

found_step :
    (h k m : ℕ) (i j : ServiceInstance) (o : Option Node) (last : Option ServiceInstance)
    → nearer_node h (some (m, j)) o ≡ some (k, i)
    → (o ≡ some (k, i) → last ≡ some i)
    → ((a : ServiceInstance) → last ≡ some a → IsLeast h k o)
    → instead last (ite (ℕ_discrete m k) (some j) none) ≡ some i
unfolding nearer_node IsLeast
found_step h k m i j none none e f l = ground arith
found_step h k m i j none (some a) e f l = absurd (l a refl)
found_step h k m i j (some (m', j')) none e f l = ground arith
found_step h k m i j (some (m', j')) (some a) e f l = ground (arith, l a refl)

nearest_node_last :
    (h k : ℕ) (i : ServiceInstance) (ns : List Node)
    → nearest_node h ns ≡ some (k, i)
    → last_of k ns ≡ some i
unfolding nearest_node last_of
nearest_node_last h k i [] e = absurd (ground arith)
nearest_node_last h k i ((m, j) ∷ ns) e =
    found_step h k m i j (nearest_node h ns) (last_of k ns) e (nearest_node_last h k i ns)
      (λ a. nearest_node-IsLeast h k a ns)

-- The ring holds the nearest node under its key.
pub get-nearest_node :
    (h k : ℕ) (i : ServiceInstance) (ns : List Node) (r : Ring)
    → nearest_node h ns ≡ some (k, i)
    → Dict.get ℕ_discrete k (add_nodes ns r).ring ≡ some i
get-nearest_node h k i ns r e =
    get-add_nodes k ns r
    ∙ ap (λ l. instead l (Dict.get ℕ_discrete k r.ring)) (nearest_node_last h k i ns e)
