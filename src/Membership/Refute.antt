-- ===== src/Membership/Refute.antt =====
-- Refutation: a node that was declared dead comes back by a bumped generation.
use dfs_go.Common.{ℕ, ◌+◌, ◌^◌, ◌≤◌, ◌<◌, ◌≡◌, String, true, false, some, arith}
use dfs_go.Membership.{
  NodeState, alive, ClusterState, NodeInfo, get_node, update_state, bumped, bump_self_generation,
  force_local_state,
}
use dfs_go.Membership.Update.{view, get_node-put_node, get_node-written, update_state-Updates}

-- A bump takes a strictly larger generation, short of the top of uint64.
pub lt-bumped : (g now : ℕ) → g + 1 < 2 ^ 64 → g < bumped g now
unfolding bumped
lt-bumped g now top = ground arith

-- BumpSelfGeneration raises the node's own generation strictly and keeps its state, and any peer
-- whose record of it is no newer than the old generation then takes it back as alive. The
-- generation is short of the top of uint64.
pub bump_refutes :
    (cs peer : ClusterState) (n : NodeInfo) (s : NodeState) (h now then_ : ℕ)
    → get_node cs cs.self_addr ≡ some n
    → n.generation + 1 < 2 ^ 64
    → view peer cs.self_addr ≡ some (s, h)
    → h ≤ n.generation
    → (g : ℕ) × (n.generation < g)
      × (view (bump_self_generation cs now) cs.self_addr ≡ some (n.state, g))
      × ((update_state peer cs.self_addr alive g then_).1 ≡ true)
      × (view (update_state peer cs.self_addr alive g then_).0 cs.self_addr ≡ some (alive, g))
unfolding bump_self_generation
bump_refutes cs peer n s h now then_ e top seen old =
    let g = bumped n.generation now in
    let grows = lt-bumped n.generation now top in
    let u = update_state-Updates peer cs.self_addr alive g then_ in
    let n' = record n { generation = g; last_updated = now } in
    (
      g,
      grows,
      rw (e, bump_self_generation)
          (ground (arith, get_node-put_node cs cs.self_addr cs.self_addr n')),
      ground (arith, u.result, seen, grows, old),
      ground (arith, u.entry, seen, grows, old),
    )

-- ForceLocalState overrides a known entry with a strictly larger generation, short of the top of
-- uint64.
pub force_local_state_lem :
    (cs : ClusterState) (addr : String) (s : NodeState) (now : ℕ) (n : NodeInfo)
    → get_node cs addr ≡ some n
    → n.generation + 1 < 2 ^ 64
    → (view (force_local_state cs addr s now) addr ≡ some (s, bumped n.generation now))
      × (n.generation < bumped n.generation now)
unfolding force_local_state
force_local_state_lem cs addr s now n e top =
    let n' = record n { state = s; generation = bumped n.generation now; last_updated = now } in
    (
      rw (e, force_local_state) (ground (arith, get_node-written cs addr addr n' n.state s)),
      lt-bumped n.generation now top,
    )

-- The refutation rests on the clocks: a peer that forced the state at a clock reading at or past
-- the one of the bump, and past the old generation, discards the refutation as stale.
pub refutation_lost :
    (peer : ClusterState) (addr : String) (s : NodeState) (m : NodeInfo)
    (g now_self now_peer then_ : ℕ)
    → get_node peer addr ≡ some m
    → m.generation + 1 < 2 ^ 64
    → now_peer < 2 ^ 64
    → now_self ≤ now_peer
    → g < now_peer
    → (update_state (force_local_state peer addr s now_peer) addr alive (bumped g now_self) then_).1
      ≡ false
unfolding bumped
refutation_lost peer addr s m g now_self now_peer then_ e top bound ahead newer =
    let forced = force_local_state_lem peer addr s now_peer m e top in
    let u =
      update_state-Updates (force_local_state peer addr s now_peer) addr alive (bumped g now_self)
        then_ in
    ground (arith, u.result, forced.0)
