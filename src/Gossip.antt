-- ===== src/Gossip.antt =====
-- The gossip service (Cluster/gossip/gossip.go) over the membership table: a round, and the
-- handlers of a digest and of a response. What `getPeers` answers during a call is an argument, as
-- are the instant and the shuffle; `dialled` logs the calls of `onNewPeer`, which may be nil. A nil
-- metadata map is the empty one, and merging the empty one changes nothing.
pub mod Table
pub mod Learns
use dfs_go.Common.{ℕ, String, string_discrete, List, [], ◌∷◌, ◌++◌, Bool, true, false}
use dfs_go.Common.{Option, none, some, leb, ltb, if◌then◌else◌, ◌&&◌, ◌||◌, not, test, length}
use dfs_go.Common.{take, map, select, contains}
use dfs_go.Common.Assoc.{insert}
use dfs_go.Membership.{NodeState, alive, NodeInfo, GossipDigest, ClusterState, Metadata, get_node}
use dfs_go.Membership.{
  add_node, update_state, set_metadata, get_nodes, all_nodes, digest, merge, is_alive,
}
use mathlib.Core.List.{lookup}

pub record MessageGossipDigest : Type 0 where
  pub from : String
  pub digests : List GossipDigest

pub record MessageGossipResponse : Type 0 where
  pub from : String
  pub full : List NodeInfo
  pub my_digest : List GossipDigest

-- `has_on_new_peer` tells whether the callback is not nil.
pub record GossipService : Type 0 where
  pub fan_out : ℕ
  pub self_addr : String
  pub self_fingerprint : String
  pub has_on_new_peer : Bool
  pub cluster : ClusterState
  pub dialled : List String

unfoldable pub set_self_addr : String → GossipService → GossipService
set_self_addr addr gs = record gs { self_addr = addr }

unfoldable pub set_self_fingerprint : String → GossipService → GossipService
set_self_fingerprint fp gs = record gs { self_fingerprint = fp }

abbrev pub same_name : String → String → Bool
same_name a b = test (string_discrete a b)

-- The messages of a round, in order, by their targets.
unfoldable pub gossip_round :
    (List String → List String) → List String → GossipService → List (String × MessageGossipDigest)
gossip_round shuffle all gs =
    let peers = shuffle (select (λ p. not (same_name p gs.self_addr)) all) in
    let fan_out = if ltb (length peers) gs.fan_out then length peers else gs.fan_out in
    let filtered =
      select (λ d. contains string_discrete (gs.self_addr ∷ peers) d.addr) (digest gs.cluster) in
    map (λ target. (target, record { from = gs.self_addr; digests = filtered }))
      (take fan_out peers)

-- `digestMap`: of several digests of a node the last counts
unfoldable pub digest_map :
    List GossipDigest → List (String × GossipDigest) → List (String × GossipDigest)
digest_map [] m = m
digest_map (d ∷ ds) m = digest_map ds (insert string_discrete d.addr d m)

unfoldable pub known_addrs : ClusterState → List String
known_addrs cs = map (λ n. n.addr) (all_nodes cs)

-- `toDialSet[addr] = struct{}{}`
unfoldable pub add_dial : String → List String → List String
add_dial addr dials = if contains string_discrete dials addr then dials else dials ++ (addr ∷ [])

-- the local record of a node is there and is not alive
unfoldable pub is_down : Option NodeInfo → Bool
is_down none = false
is_down (some n) = not (is_alive n.state)

abbrev pub digest_alive : Option GossipDigest → Bool
digest_alive none = true
digest_alive (some d) = is_alive d.state

-- a wanted address; a digest that is missing is the zero value, which is alive
unfoldable pub dial_one :
    GossipService
    → List String
    → List String
    → List (String × GossipDigest)
    → ClusterState
    → String
    → List String
    → List String
dial_one gs peers known m cs addr dials =
    if same_name addr gs.self_addr || contains string_discrete peers addr
    then dials
    else if not (contains string_discrete known addr)
    then add_dial addr dials
    else if digest_alive (lookup string_discrete addr m) && is_down (get_node cs addr)
    then add_dial addr dials
    else dials

unfoldable pub dial_wanted :
    GossipService
    → List String
    → List String
    → List (String × GossipDigest)
    → ClusterState
    → List String
    → List String
    → List String
dial_wanted gs peers known m cs [] dials = dials
dial_wanted gs peers known m cs (addr ∷ wanted) dials =
    dial_wanted gs peers known m cs wanted (dial_one gs peers known m cs addr dials)

-- an older record of a node that is not alive
unfoldable pub is_outdated : Option NodeInfo → GossipDigest → Bool
is_outdated none d = false
is_outdated (some n) d = not (is_alive n.state) && ltb n.generation d.generation

-- a node that the digest has brought, with its state
unfoldable pub enter_node : ClusterState → GossipDigest → ℕ → ClusterState
enter_node cs d now = (update_state (add_node cs d.addr [] now) d.addr d.state d.generation now).0

-- a digest in the second loop: the table, and the addresses to dial
unfoldable pub scan_digest :
    GossipService
    → List String
    → List String
    → ℕ
    → GossipDigest
    → ClusterState
    → List String
    → ClusterState × List String
scan_digest gs peers known now d cs dials =
    if same_name d.addr gs.self_addr
    then (cs, dials)
    else if not (is_alive d.state) || contains string_discrete peers d.addr
    then (cs, dials)
    else if not (contains string_discrete known d.addr)
    then (enter_node cs d now, add_dial d.addr dials)
    else if is_outdated (get_node cs d.addr) d
    then (cs, add_dial d.addr dials)
    else (cs, dials)

unfoldable pub scan_digests :
    GossipService
    → List String
    → List String
    → ℕ
    → List GossipDigest
    → ClusterState
    → List String
    → ClusterState × List String
scan_digests gs peers known now [] cs dials = (cs, dials)
scan_digests gs peers known now (d ∷ ds) cs dials =
    let (cs', dials') = scan_digest gs peers known now d cs dials in
    scan_digests gs peers known now ds cs' dials'

-- both loops, which run only where there is a callback
unfoldable pub find_dials :
    GossipService
    → List String
    → List String
    → ℕ
    → List GossipDigest
    → ClusterState
    → List String
    → ClusterState × List String
find_dials gs peers known now ds cs need_full =
    if gs.has_on_new_peer
    then scan_digests gs peers known now ds cs
        (dial_wanted gs peers known (digest_map ds []) cs need_full [])
    else (cs, [])

-- The service afterwards, and the reply.
unfoldable pub handle_digest :
    List String → ℕ → MessageGossipDigest → GossipService → GossipService × MessageGossipResponse
handle_digest peers now msg gs =
    let known = known_addrs gs.cluster in
    let (merged, need_full) = merge gs.cluster msg.digests now in
    let (cs, dials) = find_dials gs peers known now msg.digests merged need_full in
    (
      record gs { cluster = cs; dialled = gs.dialled ++ dials },
      record { from = gs.self_addr; full = get_nodes cs need_full; my_digest = digest cs },
    )

-- `Metadata["fingerprint"] == selfFP`, for a fingerprint that is set
unfoldable pub has_fingerprint : String → Metadata → Bool
has_fingerprint fp m = not (same_name fp "") && matches (lookup string_discrete "fingerprint" m)
  where
    matches : Option String → Bool
    matches none = false
    matches (some v) = same_name v fp

abbrev pub is_self : GossipService → NodeInfo → Bool
is_self gs info =
    same_name info.addr gs.self_addr || has_fingerprint gs.self_fingerprint info.metadata

-- the table after an entry of the response
unfoldable pub apply_info : ClusterState → NodeInfo → ℕ → ClusterState
apply_info cs info now =
    set_metadata (update_state cs info.addr info.state info.generation now).0 info.addr
      info.metadata

-- the call of `onNewPeer` for an entry that is applied
unfoldable pub dial_info : GossipService → List String → NodeInfo → List String → List String
dial_info gs known info dials =
    if not (contains string_discrete known info.addr) && is_alive info.state && gs.has_on_new_peer
    then dials ++ (info.addr ∷ [])
    else dials

unfoldable pub apply_entry :
    GossipService
    → List String
    → ℕ
    → NodeInfo
    → ClusterState
    → List String
    → ClusterState × List String
apply_entry gs known now info cs dials =
    if is_self gs info then (cs, dials) else (apply_info cs info now, dial_info gs known info dials)

unfoldable pub apply_full :
    GossipService
    → List String
    → ℕ
    → List NodeInfo
    → ClusterState
    → List String
    → ClusterState × List String
apply_full gs known now [] cs dials = (cs, dials)
apply_full gs known now (info ∷ infos) cs dials =
    let (cs', dials') = apply_entry gs known now info cs dials in
    apply_full gs known now infos cs' dials'

unfoldable pub node_is_self : GossipService → Option NodeInfo → Bool
node_is_self gs none = false
node_is_self gs (some n) = has_fingerprint gs.self_fingerprint n.metadata

unfoldable pub apply_one : ClusterState → Option GossipDigest → ℕ → ClusterState
apply_one cs none now = cs
apply_one cs (some d) now = (update_state cs d.addr d.state d.generation now).0

unfoldable pub apply_address :
    GossipService → List (String × GossipDigest) → ℕ → String → ClusterState → ClusterState
apply_address gs m now addr cs =
    if same_name addr gs.self_addr || node_is_self gs (get_node cs addr)
    then cs
    else apply_one cs (lookup string_discrete addr m) now

unfoldable pub apply_wanted :
    GossipService → List (String × GossipDigest) → ℕ → List String → ClusterState → ClusterState
apply_wanted gs m now [] cs = cs
apply_wanted gs m now (addr ∷ wanted) cs =
    apply_wanted gs m now wanted (apply_address gs m now addr cs)

unfoldable pub handle_response : ℕ → MessageGossipResponse → GossipService → GossipService
handle_response now msg gs =
    let (cs, dials) = apply_full gs (known_addrs gs.cluster) now msg.full gs.cluster [] in
    let (merged, wanted) = merge cs msg.my_digest now in
    record gs {
      cluster = apply_wanted gs (digest_map msg.my_digest []) now wanted merged;
      dialled = gs.dialled ++ dials;
    }
