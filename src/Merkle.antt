-- ===== src/Merkle.antt =====
-- Cluster/merkle/merkle.go: the Merkle tree over a set of keys, its diff, and the repair that
-- anti-entropy runs on it. SHA-256 of a key and of two joined hashes, and the order of
-- `sort.Strings`, are parameters. The timers and goroutines of `syncLoop` are left out.
pub mod Shape
pub mod Collision
pub mod Diff
pub mod Repair
use dfs_go.Common.{
  ℕ, zero, suc, String, List, [], ◌∷◌, ◌++◌, Bool, true, false, Option, none, some, if◌then◌else◌,
  map, length, test, contains, string_discrete,
}
use dfs_go.Common.Sort.{sort_by}

-- A node of the tree. The source's `IsLeaf` is the constructor.
pub data Node (Hash : Type 0) : Type 0 where
  leaf : Hash → String → Node Hash
  inner : Hash → Node Hash → Node Hash → Node Hash

pub record Tree (Hash : Type 0) : Type 0 where
  pub root : Option (Node Hash)
  pub leaves : List (Node Hash)

-- the loop of `Diff` that drops repeated keys
unfoldable pub dedupe : List String → List String → List String
dedupe out [] = out
dedupe out (k ∷ raw) = dedupe (if contains string_discrete out k then out else out ++ k ∷ []) raw

module _ {Hash : Type 0} where
  unfoldable pub hash_of : Node Hash → Hash
  hash_of (leaf h _) = h
  hash_of (inner h _ _) = h

  unfoldable pub collect_keys : Node Hash → List String
  collect_keys (leaf _ key) = key ∷ []
  collect_keys (inner _ l r) = collect_keys l ++ collect_keys r

  -- the key that `Keys` reads from a leaf
  unfoldable pub key_of : Node Hash → String
  key_of (leaf _ key) = key
  key_of (inner _ _ _) = ""

  unfoldable pub keys_of_tree : Tree Hash → List String
  keys_of_tree t = map key_of t.leaves

-- SHA-256 of a key, and of the concatenation of two hashes
module _ {Hash : Type 0} (leaf_hash : String → Hash) (pair_hash : Hash → Hash → Hash) where
  unfoldable pub parent : Node Hash → Node Hash → Node Hash
  parent l r = inner (pair_hash (hash_of l) (hash_of r)) l r

  -- the loop of `buildLevel`: the last node of an odd layer is its own sibling
  unfoldable pub pair_up : List (Node Hash) → List (Node Hash)
  pair_up [] = []
  pair_up (l ∷ []) = parent l l ∷ []
  pair_up (l ∷ r ∷ layer) = parent l r ∷ pair_up layer

  -- `none` where the fuel runs out; the source does not end on an empty layer
  unfoldable pub build_level : ℕ → List (Node Hash) → Option (Node Hash)
  build_level zero layer = none
  build_level (suc fuel) [] = none
  build_level (suc fuel) (l ∷ []) = some l
  build_level (suc fuel) (l ∷ r ∷ layer) = build_level fuel (pair_up (l ∷ r ∷ layer))

  unfoldable pub make_leaf : String → Node Hash
  make_leaf k = leaf (leaf_hash k) k

  module _ (le : String → String → Bool) where
    unfoldable pub build : List String → Tree Hash
    build [] = record { root = none; leaves = [] }
    build (k ∷ keys) =
        let leaves = map make_leaf (sort_by le (k ∷ keys)) in
        record { root = build_level (length leaves) leaves; leaves = leaves }

module _ {Hash : Type 0} (dec : Discrete Hash) (zero_hash : Hash) where
  unfoldable pub root_hash : Tree Hash → Hash
  root_hash t = elim t.root [ none ↦ zero_hash | some n ↦ hash_of n ]

  unfoldable pub diff_nodes : Node Hash → Node Hash → List String
  diff_nodes (leaf h j) (leaf g k) =
      if test (dec h g) then [] else (if test (string_discrete k j) then j ∷ [] else j ∷ k ∷ [])
  diff_nodes (leaf h j) (inner g l r) =
      if test (dec h g) then [] else j ∷ collect_keys (inner g l r)
  diff_nodes (inner h l r) (leaf g k) =
      if test (dec h g) then [] else collect_keys (inner h l r) ++ k ∷ []
  diff_nodes (inner h l r) (inner g l' r') =
      let apart = diff_nodes l l' ++ diff_nodes r r' in if test (dec h g) then [] else apart

  -- `diffNodes` at the roots, which may be nil
  unfoldable pub diff_roots : Option (Node Hash) → Option (Node Hash) → List String
  diff_roots none none = []
  diff_roots none (some b) = collect_keys b
  diff_roots (some a) none = collect_keys a
  diff_roots (some a) (some b) = diff_nodes a b

  unfoldable pub diff : Tree Hash → Tree Hash → List String
  diff t other =
      if test (dec (root_hash t) (root_hash other))
      then []
      else dedupe [] (diff_roots t.root other.root)

-- What `repair` does about a key: the calls of `onSendKey` and `onNeedKey`, or the log line.
pub data Action : Type 0 where
  send_key need_key leave_to_conflict : String → Action

unfoldable pub decide : List String → List String → String → Action
decide mine theirs key =
    if contains string_discrete mine key
    then (if contains string_discrete theirs key then leave_to_conflict key else send_key key)
    else (if contains string_discrete theirs key then need_key key else leave_to_conflict key)

module _ {Hash : Type 0} (dec : Discrete Hash) (leaf_hash : String → Hash)
    (pair_hash : Hash → Hash → Hash) (zero_hash : Hash) (le : String → String → Bool) where
  unfoldable pub repair : List String → List String → List Action
  repair mine theirs =
      map (decide mine theirs) (
        diff dec zero_hash (build leaf_hash pair_hash le mine)
          (build leaf_hash pair_hash le theirs))

  -- `HandleSync`: no reply where the roots agree, else our keys
  unfoldable pub handle_sync : List String → Hash → Option (List String)
  handle_sync my_keys their_root =
      if test (dec (root_hash dec zero_hash (build leaf_hash pair_hash le my_keys)) their_root)
      then none
      else some my_keys
