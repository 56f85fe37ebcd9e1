-- ===== src/HashRing.antt =====
-- Cluster/hashring/hashring.go: consistent hashing with virtual nodes. `hashKey` is SHA-256, a
-- parameter; Go maps are association lists. A method returns the new ring.
pub mod Search
pub mod Walk
pub mod Nodes
pub mod Valid
pub mod Leave
use mathlib.Core.List.{lookup}
use mathlib.Core.Option
use Prim.Native.String
use dfs_go.Common.{
  ℕ, zero, suc, ◌+◌, ◌/◌, ◌%◌, String, List, [], ◌∷◌, ◌++◌, Bool, true, false, not, Option, none,
  some, leb, ltb, ◌==◌, if◌then◌else◌, length, get_or, select, contains, string_discrete,
  ℕ_discrete, decimal,
}
use dfs_go.Common.Assoc.{insert, delete, keys}
use dfs_go.Common.Sort.{sort_by}

pub record HashRing : Type 0 where
  pub sorted_hashes : List ℕ
  pub hash_to_node : List (ℕ × String)
  pub node_to_hashes : List (String × List ℕ)
  pub virtual_nodes : ℕ
  pub repl_factor : ℕ

-- a negative value counts as 0
pub record Config : Type 0 where
  pub virtual_nodes : ℕ
  pub replication_factor : ℕ

abbrev pub default_virtual_nodes : ℕ
default_virtual_nodes = 150

abbrev pub default_replication_factor : ℕ
default_replication_factor = 3

unfoldable pub new : Option Config → HashRing
new none = record {
  sorted_hashes = [];
  hash_to_node = [];
  node_to_hashes = [];
  virtual_nodes = default_virtual_nodes;
  repl_factor = default_replication_factor;
}
new (some cfg) = record {
  sorted_hashes = [];
  hash_to_node = [];
  node_to_hashes = [];
  virtual_nodes = if ltb 0 cfg.virtual_nodes then cfg.virtual_nodes else default_virtual_nodes;
  repl_factor =
      if ltb 0 cfg.replication_factor then cfg.replication_factor else default_replication_factor;
}

-- `_, exists := hr.nodeToHashes[addr]`
unfoldable pub has_node : HashRing → String → Bool
has_node hr addr = elim (lookup string_discrete addr hr.node_to_hashes) [
  | some _ ↦ true
  | none ↦ false
]

unfoldable pub members : HashRing → List String
members hr = keys hr.node_to_hashes

unfoldable pub size : HashRing → ℕ
size hr = length hr.node_to_hashes

-- `fmt.Sprintf("%s:vnode:%d", addr, i)`
unfoldable pub vnode_label : String → ℕ → String
vnode_label addr i = String.◌++◌ addr (String.◌++◌ ":vnode:" (decimal i))

-- `hr.hashToNode[h]`
unfoldable pub owner : HashRing → ℕ → String
owner hr h = Option.get_or (lookup ℕ_discrete h hr.hash_to_node) ""

-- the body of `sort.Search` over the ring: the least index in [i, j) whose position is at least
-- the hash, or j
unfoldable pub search_loop : ℕ → List ℕ → ℕ → ℕ → ℕ → ℕ
search_loop zero hashes hash i j = i
search_loop (suc fuel) hashes hash i j =
    let h = (i + j) / 2 in
    let right = search_loop fuel hashes hash (h + 1) j in
    let left = search_loop fuel hashes hash i h in
    if ltb i j then (if leb hash (get_or hashes h 0) then left else right) else i

unfoldable pub search : HashRing → ℕ → ℕ
search hr hash =
    let n = length hr.sorted_hashes in
    let idx = search_loop (n + 1) hr.sorted_hashes hash 0 n in if leb n idx then 0 else idx

-- the loop of `RemoveNode` over the node's hashes: `delete(hr.hashToNode, h)`
unfoldable pub forget : List ℕ → List (ℕ × String) → List (ℕ × String)
forget [] m = m
forget (h ∷ hs) m = forget hs (delete ℕ_discrete h m)

unfoldable pub remove_node : HashRing → String → HashRing
remove_node hr addr = elim (lookup string_discrete addr hr.node_to_hashes) [
  | none ↦ hr
  | some hashes ↦ record hr {
    sorted_hashes = select (λ h. not (contains ℕ_discrete hashes h)) hr.sorted_hashes;
    hash_to_node = forget hashes hr.hash_to_node;
    node_to_hashes = delete string_discrete addr hr.node_to_hashes;
  }
]

-- the loop of `GetNodes`: `rounds` positions are left, `i` were passed; the entries of `seen` are
-- those of `nodes`
unfoldable pub walk : HashRing → ℕ → ℕ → ℕ → ℕ → List String → List String
walk hr n start zero i nodes = nodes
walk hr n start (suc rounds) i nodes =
    let addr = owner hr (get_or hr.sorted_hashes ((start + i) % length hr.sorted_hashes) 0) in
    let rest =
      walk hr n start rounds (i + 1)
        (if contains string_discrete nodes addr then nodes else nodes ++ addr ∷ []) in
    if ltb (length nodes) n then rest else nodes

-- the loop of `AddNode` over the new hashes: `hr.hashToNode[h] = addr`
unfoldable pub assign : String → List ℕ → List (ℕ × String) → List (ℕ × String)
assign addr [] m = m
assign addr (h ∷ hs) m = assign addr hs (insert ℕ_discrete h addr m)

-- `nodes[0]`, or "" of no nodes
abbrev pub first_or_empty : List String → String
first_or_empty [] = ""
first_or_empty (node ∷ _) = node

module _ (hash_key : String → ℕ) where
  -- the loop of `AddNode` from virtual node `i` on, `rounds` of them: the new hashes in order
  unfoldable pub vnode_hashes : String → ℕ → ℕ → List ℕ
  vnode_hashes addr zero i = []
  vnode_hashes addr (suc rounds) i =
      hash_key (vnode_label addr i) ∷ vnode_hashes addr rounds (i + 1)

  unfoldable pub add_node : HashRing → String → HashRing
  add_node hr addr =
      let hashes = vnode_hashes addr hr.virtual_nodes 0 in
      if has_node hr addr then hr else record hr {
        sorted_hashes = sort_by leb (hr.sorted_hashes ++ hashes);
        hash_to_node = assign addr hashes hr.hash_to_node;
        node_to_hashes = insert string_discrete addr hashes hr.node_to_hashes;
      }

  unfoldable pub get_nodes : HashRing → String → ℕ → List String
  get_nodes hr key n =
      if length hr.sorted_hashes == 0
      then []
      else (let total_physical = size hr in
          let n' = if ltb total_physical n then total_physical else n in
          walk hr n' (search hr (hash_key key)) (length hr.sorted_hashes) 0 [])

  unfoldable pub get_primary_node : HashRing → String → String
  get_primary_node hr key = first_or_empty (get_nodes hr key 1)
