-- ===== src/Tests/Ring.antt =====
-- A ring of two nodes with two virtual nodes each, under a toy hash, and a rebalancer on it.
use Prim.Native.Char.{code}
use mathlib.Core.List.{lookup}
use dfs_go.Common.{
  ℕ, ◌+◌, ◌*◌, ◌%◌, ◌^◌, ◌<◌, ◌≡◌, refl, min, String, [], true, false, string_discrete, ℕ_discrete,
  contains, IsDistinct, All, arith, any_of, any_of-false, length, decimal,
}
use dfs_go.Common.Assoc.{insert}
use dfs_go.Common.Sort.{sort_by, insert_by}
use dfs_go.HashRing.{
  HashRing, has_node, members, add_node, remove_node, vnode_hashes, vnode_label, get_nodes,
  get_primary_node, size, owner,
}
use dfs_go.HashRing.Search.{Clockwise, position}
use dfs_go.HashRing.Valid.{IsValid, IsFresh, on_ring, fresh_hashes, add_node-IsValid}
use dfs_go.HashRing.Leave.{remove-add}
use dfs_go.HashRing.Nodes.{get_nodes_correct, get_primary_node-Clockwise}

abbrev pub toy : String → ℕ
toy String.[] = 7
toy (String.◌∷◌ c s) = (toy s * 31 + code c) % 2 ^ 64

abbrev empty_ring : HashRing
empty_ring = record {
  sorted_hashes = [];
  hash_to_node = [];
  node_to_hashes = [];
  virtual_nodes = 2;
  repl_factor = 2;
}

abbrev one_node : HashRing
one_node = add_node toy empty_ring "a"

abbrev pub two_nodes : HashRing
two_nodes = add_node toy one_node "b"

empty_ring-IsValid : IsValid empty_ring
unfolding members
empty_ring-IsValid = record {
  ordered = tt;
  single = tt;
  owned = λ h on. absurd (unfold contains in ground (arith, on));
  placed = λ a hs h at c. absurd (unfold lookup in ground (arith, at));
  peopled = λ a hs at. absurd (unfold lookup in ground (arith, at));
}

a-IsFresh : IsFresh toy empty_ring "a"
a-IsFresh = λ h m. unfold contains in refl

a_new : has_node empty_ring "a" ≡ false
unfolding has_node lookup
a_new = refl

-- Adding a node to a valid ring.
add_node-IsValid_example : IsValid one_node
add_node-IsValid_example =
    add_node-IsValid toy empty_ring "a" empty_ring-IsValid (λ new. (omega arith, a-IsFresh))

apart : any_of (on_ring one_node) (fresh_hashes toy one_node "b") ≡ false
unfolding any_of contains add_node vnode_hashes vnode_label has_node lookup sort_by insert_by
    decimal ℕ_discrete
apart = refl

b-IsFresh : IsFresh toy one_node "b"
b-IsFresh =
    λ h m. any_of-false ℕ_discrete (on_ring one_node) (fresh_hashes toy one_node "b") h apart m

b_new : has_node one_node "b" ≡ false
unfolding has_node lookup add_node insert string_discrete
b_new = refl

some_vnodes : 0 < one_node.virtual_nodes
unfolding add_node has_node lookup
some_vnodes = omega arith

pub two_nodes-IsValid : IsValid two_nodes
two_nodes-IsValid =
    add_node-IsValid toy one_node "b" add_node-IsValid_example (λ new. (some_vnodes, b-IsFresh))

remove-add_example :
    ((remove_node (add_node toy one_node "b") "b").sorted_hashes ≡ one_node.sorted_hashes)
    × ((h : ℕ)
        → on_ring one_node h ≡ true
        → lookup ℕ_discrete h (remove_node (add_node toy one_node "b") "b").hash_to_node
          ≡ lookup ℕ_discrete h one_node.hash_to_node)
    × ((a : String)
        → lookup string_discrete a (remove_node (add_node toy one_node "b") "b").node_to_hashes
          ≡ lookup string_discrete a one_node.node_to_hashes)
remove-add_example = remove-add toy one_node "b" add_node-IsValid_example b_new b-IsFresh

get_nodes_correct_example :
    IsDistinct string_discrete (get_nodes toy two_nodes "k" 3)
    × All (λ a. has_node two_nodes a ≡ true) (get_nodes toy two_nodes "k" 3)
    × (length (get_nodes toy two_nodes "k" 3) ≡ min 3 (size two_nodes))
get_nodes_correct_example = get_nodes_correct toy two_nodes "k" 3 two_nodes-IsValid

some_member : 0 < size two_nodes
unfolding size members has_node lookup add_node insert string_discrete
some_member = omega arith

get_primary_node-Clockwise_example :
    (start : ℕ) × Clockwise two_nodes (toy "k") start
    × (get_primary_node toy two_nodes "k"
        ≡ owner two_nodes (position two_nodes.sorted_hashes start))
get_primary_node-Clockwise_example =
    get_primary_node-Clockwise toy two_nodes "k" two_nodes-IsValid some_member
