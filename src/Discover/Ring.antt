-- ===== src/Discover/Ring.antt =====
-- ConsistentHashLB of src/aduib_rpc/discover/load_balance/load_balance.py. The MD5 of a text as a
-- number, and Python's text of a number, are arguments.
pub mod Nearest
pub mod Nodes
pub mod Disruption
use Prim.Native.String.{String, ◌++◌ as text_append}
use native.Mathlib.Decide.{ℕ_discrete}
use aduib_rpc.Prelude.{
  List, [], if◌then◌else◌, leb, suc, zero, ℕ, ◌++◌, ◌∷◌, Option, get_elem?, length, none, some,
  ◌==◌,
}
use aduib_rpc.Prelude.Dict
use aduib_rpc.Discover.Instance.{ServiceInstance}
use aduib_rpc.Discover.LoadBalance.{choice}

-- `list.sort`, by insertion.
insert : ℕ → List ℕ → List ℕ
insert k [] = k ∷ []
insert k (j ∷ ks) = if leb k j then k ∷ j ∷ ks else j ∷ insert k ks

unfoldable pub sort : List ℕ → List ℕ
unfolding insert
sort [] = []
sort (k ∷ ks) = insert k (sort ks)

-- `bisect.bisect` on a sorted list: how many of its elements are at most `h`.
unfoldable pub bisect : List ℕ → ℕ → ℕ
bisect [] h = 0
bisect (k ∷ ks) h = if leb k h then suc (bisect ks h) else 0

abbrev pub hash_sign : String
hash_sign = "#"

-- `ring` and `sorted_keys`.
pub record Ring : Type 0 where
  pub ring : List (ℕ × ServiceInstance)
  pub keys : List ℕ

abbrev pub empty_ring : Ring
empty_ring = record { ring = []; keys = [] }

-- The body of the inner loop of `init_hash_ring`.
unfoldable pub add_node : ℕ → ServiceInstance → Ring → Ring
add_node k inst r = record { ring = Dict.set ℕ_discrete k inst r.ring; keys = r.keys ++ k ∷ [] }

-- What `select_instance` gives: None, an instance, or an IndexError or KeyError.
pub data Selection : Type 0 where
  nothing : Selection
  selected : ServiceInstance → Selection
  lookup_error : Selection

selection_of : Option ServiceInstance → Selection
selection_of none = lookup_error
selection_of (some i) = selected i

-- `ring[sorted_keys[idx]]`.
node_at : Option ℕ → Ring → Selection
unfolding selection_of
node_at none r = lookup_error
node_at (some k) r = selection_of (Dict.get ℕ_discrete k r.ring)

-- `idx = bisect(sorted_keys, h)`, and 0 past the end.
unfoldable pub index_for : List ℕ → ℕ → ℕ
unfolding bisect
index_for ks h = if bisect ks h == length ks then 0 else bisect ks h

values : List (ℕ × ServiceInstance) → List ServiceInstance
values [] = []
values ((k, i) ∷ m) = i ∷ values m

module _ (md5 : String → ℕ) (show : ℕ → String) where
  -- `_hash(f"{inst.instance_id}#{i}")`.
  unfoldable pub node_key : ServiceInstance → ℕ → ℕ
  node_key inst i = md5 (text_append inst.instance_id (text_append hash_sign (show i)))

  -- The inner loop of `init_hash_ring`, for i in range(n).
  unfoldable pub add_virtual : ℕ → ServiceInstance → Ring → Ring
  unfolding add_node node_key
  add_virtual zero inst r = r
  add_virtual (suc n) inst r = add_node (node_key inst n) inst (add_virtual n inst r)

  -- The outer loop.
  unfoldable pub add_instances : ℕ → List ServiceInstance → Ring → Ring
  unfolding add_virtual
  add_instances n [] r = r
  add_instances n (inst ∷ is) r = add_instances n is (add_virtual n inst r)

  -- `init_hash_ring`.
  unfoldable pub init_hash_ring : ℕ → List ServiceInstance → Ring
  unfolding add_instances sort
  init_hash_ring n is = let r = add_instances n is empty_ring in record r { keys = sort r.keys }

  -- `select_instance` on the ring, by the hash of its key, or by a random choice.
  select_in : (ℕ → ℕ) → Option String → Ring → List (ℕ × ServiceInstance) → Selection
  unfolding index_for node_at values selection_of choice
  select_in draw key r [] = nothing
  select_in draw none r (n ∷ ns) = selection_of (choice draw (values (n ∷ ns)))
  select_in draw (some key) r (n ∷ ns) = node_at (get_elem? r.keys (index_for r.keys (md5 key))) r

  -- `select_instance` of a balancer with `n` virtual nodes.
  unfoldable pub select_instance : ℕ → (ℕ → ℕ) → Option String → List ServiceInstance → Selection
  unfolding select_in init_hash_ring
  select_instance n draw key is =
      select_in draw key (init_hash_ring n is) (init_hash_ring n is).ring
