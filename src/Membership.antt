-- ===== src/Membership.antt =====
-- Cluster/membership/membership.go: the table of cluster members. A method returns the new table;
-- `fired` logs the calls of the change listeners. Times are Unix nanoseconds, handed in as `now`;
-- a generation is a uint64. A nil metadata map is the empty one.
pub mod Update
pub mod Valid
pub mod Converge
pub mod Gossip
pub mod Refute
use mathlib.Core.List.{lookup}
use dfs_go.Common.{
  ℕ, ◌+◌, ◌%◌, ◌^◌, String, List, [], ◌∷◌, ◌++◌, Bool, true, false, Option, none, some, leb, ltb,
  ◌==◌, ◌&&◌, if◌then◌else◌, map, string_discrete,
}
use dfs_go.Common.Assoc.{insert, delete}

-- the states that have names; another number, which no node sends, is not represented
pub data NodeState : Type 0 where
  alive suspect dead left : NodeState

-- the number of a state, by which `d.State > local.State` compares
unfoldable pub rank : NodeState → ℕ
rank alive = 0
rank suspect = 1
rank dead = 2
rank left = 3

abbrev pub Metadata : Type 0
Metadata = List (String × String)

pub record NodeInfo : Type 0 where
  pub addr : String
  pub state : NodeState
  pub generation : ℕ
  pub last_updated : ℕ
  pub metadata : Metadata

pub record GossipDigest : Type 0 where
  pub addr : String
  pub state : NodeState
  pub generation : ℕ

pub record Change : Type 0 where
  pub addr : String
  pub old_state : NodeState
  pub new_state : NodeState

pub record ClusterState : Type 0 where
  pub self_addr : String
  pub nodes : List (String × NodeInfo)
  pub fired : List Change

unfoldable pub new : String → ℕ → ClusterState
new self_addr now =
    let gen = now % 2 ^ 64 in
    record {
      self_addr = self_addr;
      nodes =
          (
            self_addr,
            record {
              addr = self_addr;
              state = alive;
              generation = if ltb gen 2 then 2 else gen;
              last_updated = now;
              metadata = [];
            },
          )
          ∷ [];
      fired = [];
    }

-- `cs.nodes[addr]`
unfoldable pub get_node : ClusterState → String → Option NodeInfo
get_node cs addr = lookup string_discrete addr cs.nodes

-- a write of an entry, with no listener called
unfoldable pub put_node : ClusterState → String → NodeInfo → ClusterState
put_node cs addr info = record cs { nodes = insert string_discrete addr info cs.nodes }

unfoldable pub fire_change : ClusterState → String → NodeState → NodeState → ClusterState
fire_change cs addr old new = record cs {
  fired = cs.fired ++ record { addr = addr; old_state = old; new_state = new } ∷ [];
}

-- a `NodeInfo` literal
abbrev pub node_info : String → NodeState → ℕ → ℕ → Metadata → NodeInfo
node_info addr state generation now meta = record {
  addr = addr;
  state = state;
  generation = generation;
  last_updated = now;
  metadata = meta;
}

unfoldable pub add_node : ClusterState → String → Metadata → ℕ → ClusterState
add_node cs addr meta now = elim (get_node cs addr) [
  | some _ ↦ cs
  | none ↦ fire_change (put_node cs addr (node_info addr alive 1 now meta)) addr alive alive
]

unfoldable pub remove_node : ClusterState → String → ClusterState
remove_node cs addr = record cs { nodes = delete string_discrete addr cs.nodes }

unfoldable pub update_state : ClusterState → String → NodeState → ℕ → ℕ → ClusterState × Bool
update_state cs addr state generation now = elim (get_node cs addr) [
  | none ↦ (
    fire_change (put_node cs addr (node_info addr state generation now [])) addr alive state,
    true,
  )
  | some existing ↦ if leb generation existing.generation then (cs, false) else (
    fire_change
        (put_node cs addr
          (record existing { state = state; generation = generation; last_updated = now }))
        addr existing.state state,
    true,
  )
]

-- the generation that a local event takes: the clock, or one more than the old generation
unfoldable pub bumped : ℕ → ℕ → ℕ
bumped generation now =
    let gen = now % 2 ^ 64 in if leb gen generation then (generation + 1) % 2 ^ 64 else gen

unfoldable pub force_local_state : ClusterState → String → NodeState → ℕ → ClusterState
force_local_state cs addr state now = elim (get_node cs addr) [
  | none ↦ cs
  | some existing ↦
      fire_change
        (put_node cs addr (record existing {
          state = state;
          generation = bumped existing.generation now;
          last_updated = now;
        }))
        addr existing.state state
]

-- `for k, v := range meta { node.Metadata[k] = v }`
unfoldable pub overlay : Metadata → Metadata → Metadata
overlay m [] = m
overlay m ((k, v) ∷ meta) = overlay (insert string_discrete k v m) meta

unfoldable pub set_metadata : ClusterState → String → Metadata → ClusterState
set_metadata cs addr meta = elim (get_node cs addr) [
  | none ↦ cs
  | some node ↦ put_node cs addr (record node { metadata = overlay node.metadata meta })
]

unfoldable pub get_nodes : ClusterState → List String → List NodeInfo
get_nodes cs [] = []
get_nodes cs (addr ∷ addrs) = elim (get_node cs addr) [
  | some n ↦ n ∷ get_nodes cs addrs
  | none ↦ get_nodes cs addrs
]

abbrev pub is_alive : NodeState → Bool
is_alive alive = true
is_alive _ = false

-- the loop of `AliveNodes`
unfoldable pub alive_of : List (String × NodeInfo) → List String
alive_of [] = []
alive_of ((addr, n) ∷ nodes) = if is_alive n.state then addr ∷ alive_of nodes else alive_of nodes

unfoldable pub alive_nodes : ClusterState → List String
alive_nodes cs = alive_of cs.nodes

unfoldable pub all_nodes : ClusterState → List NodeInfo
all_nodes cs = map (λ e. e.1) cs.nodes

unfoldable pub digest : ClusterState → List GossipDigest
digest cs =
    map (λ e. record { addr = e.1.addr; state = e.1.state; generation = e.1.generation }) cs.nodes

-- the body of the loop of `Merge`: the table, and whether the full entry is wanted
unfoldable pub merge_digest : ClusterState → GossipDigest → ℕ → ClusterState × Bool
merge_digest cs d now = elim (get_node cs d.addr) [
  | none ↦ (cs, true)
  | some local ↦
      if ltb local.generation d.generation
      then (cs, true)
      else (if d.generation == local.generation && ltb (rank local.state) (rank d.state)
          then (
            fire_change (put_node cs d.addr (record local { state = d.state; last_updated = now }))
                d.addr local.state d.state,
            false,
          )
          else (cs, false))
]

unfoldable pub merge : ClusterState → List GossipDigest → ℕ → ClusterState × List String
merge cs [] now = (cs, [])
merge cs (d ∷ digests) now =
    let (cs', wanted) = merge_digest cs d now in
    let (cs'', need_full) = merge cs' digests now in
    (cs'', if wanted then d.addr ∷ need_full else need_full)

unfoldable pub next_generation : ClusterState → String → ℕ
next_generation cs addr = elim (get_node cs addr) [
  | some n ↦ (n.generation + 1) % 2 ^ 64
  | none ↦ 2
]

unfoldable pub bump_self_generation : ClusterState → ℕ → ClusterState
bump_self_generation cs now = elim (get_node cs cs.self_addr) [
  | none ↦ cs
  | some self ↦
      put_node cs cs.self_addr
        (record self { generation = bumped self.generation now; last_updated = now })
]
