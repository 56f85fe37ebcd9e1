-- ===== src/Tests/Members.antt =====
-- A table of two members and a peer's.
use mathlib.Core.List.{lookup}
use mathlib.Core.List.Perm
use dfs_go.Common.{
  ℕ, ◌<◌, ◌≡◌, refl, List, [], ◌∷◌, true, false, some, max, string_discrete, arith, of_mem,
}
use dfs_go.Membership.{
  NodeState, alive, suspect, dead, ClusterState, NodeInfo, GossipDigest, new, get_node, add_node,
  update_state, merge, bumped, bump_self_generation, force_local_state, rank,
}
use dfs_go.Membership.Update.{Updates, view, update_state-Updates}
use dfs_go.Membership.Valid.{IsValid, Reach, Step, reachable-IsValid}
use dfs_go.Membership.Converge.{Update, apply_updates, OwnsGenerations, updates_converge}
use dfs_go.Membership.Gossip.{merge_takes_worst, worst_said}
use dfs_go.Membership.Refute.{bump_refutes, refutation_lost}

abbrev peer_entry : NodeInfo
peer_entry = record { addr = "p"; state = alive; generation = 5; last_updated = 1; metadata = [] }

abbrev self_entry : NodeInfo
self_entry = record { addr = "s"; state = alive; generation = 4; last_updated = 1; metadata = [] }

abbrev table : ClusterState
table = record { self_addr = "s"; nodes = ("s", self_entry) ∷ ("p", peer_entry) ∷ []; fired = [] }

-- the peer's own table, in which "s" is suspect
abbrev peer_table : ClusterState
peer_table = record {
  self_addr = "p";
  nodes = ("p", peer_entry) ∷ ("s", record self_entry { state = suspect; generation = 3 }) ∷ [];
  fired = [];
}

update_state-Updates_example : Updates table "p" dead 6 (update_state table "p" dead 6 9)
update_state-Updates_example = update_state-Updates table "p" dead 6 9

reachable-IsValid_example : IsValid (update_state (add_node (new "s" 8) "p" [] 9) "p" dead 6 9).0
reachable-IsValid_example = reachable-IsValid "s" 8 (
    Reach.next (Reach.next Reach.here (Step.added "p" [] 9))
      (Step.updated "p" dead 6 9 (omega arith)))

p_alive : view table "p" ≡ some (alive, 5)
unfolding get_node lookup string_discrete
p_alive = refl

abbrev rumours : List GossipDigest
rumours =
    record { addr = "p"; state = suspect; generation = 5 }
    ∷ record { addr = "p"; state = dead; generation = 5 }
    ∷ []

merge_takes_worst_example :
    (s' : NodeState) × (view (merge table rumours 9).0 "p" ≡ some (s', 5))
    × (rank s' ≡ max (rank alive) (worst_said "p" 5 rumours))
merge_takes_worst_example = merge_takes_worst table rumours 9 "p" alive 5 p_alive

self_known : get_node table "s" ≡ some self_entry
unfolding get_node lookup string_discrete
self_known = refl

suspected : view peer_table "s" ≡ some (suspect, 3)
unfolding get_node lookup string_discrete
suspected = refl

bump_refutes_example :
    (g : ℕ) × (4 < g)
    × (view (bump_self_generation table 9) "s" ≡ some (alive, g))
    × ((update_state peer_table "s" alive g 9).1 ≡ true)
    × (view (update_state peer_table "s" alive g 9).0 "s" ≡ some (alive, g))
bump_refutes_example =
    bump_refutes table peer_table self_entry suspect 3 9 9 self_known (omega arith) suspected
      (omega arith)

peer_knows : get_node peer_table "s" ≡ some (record self_entry { state = suspect; generation = 3 })
unfolding get_node lookup string_discrete
peer_knows = refl

refutation_lost_example :
    (update_state (force_local_state peer_table "s" suspect 20) "s" alive (bumped 4 10) 30).1
    ≡ false
refutation_lost_example =
    refutation_lost peer_table "s" suspect (record self_entry { state = suspect; generation = 3 }) 4
      10 20 30 peer_knows (omega arith) (omega arith) (omega arith) (omega arith)

abbrev u1 : Update
u1 = record { addr = "p"; state = dead; generation = 7 }

abbrev u2 : Update
u2 = record { addr = "p"; state = alive; generation = 8 }

NodeState-set : IsSet NodeState
NodeState-set = hlevel

owned : OwnsGenerations (u1 ∷ u2 ∷ [])
owned u w mu mw e =
    of_mem (λ (x : Update). x.generation ≡ w.generation → x.state ≡ w.state) (u1 ∷ u2 ∷ []) u
      (λ x. hlevel (NodeState-set))
      (
        of_mem (λ (y : Update). 7 ≡ y.generation → dead ≡ y.state) (u1 ∷ u2 ∷ []) w
            (λ y. hlevel (NodeState-set)) ((λ _. refl), ((λ f. absurd (omega (arith, f))), tt)) mw,
        (
          of_mem (λ (y : Update). 8 ≡ y.generation → alive ≡ y.state) (u1 ∷ u2 ∷ []) w
              (λ y. hlevel (NodeState-set)) ((λ f. absurd (omega (arith, f))), ((λ _. refl), tt))
              mw,
          tt,
        ),
      )
      mu

same_view : view table "p" ≡ view peer_table "p"
unfolding get_node lookup string_discrete
same_view = refl

updates_converge_example :
    view (apply_updates table (u1 ∷ u2 ∷ []) 8) "p"
    ≡ view (apply_updates peer_table (u2 ∷ u1 ∷ []) 9) "p"
updates_converge_example =
    updates_converge table peer_table (u1 ∷ u2 ∷ []) (u2 ∷ u1 ∷ []) 8 9 "p" (Perm.swap u2 u1 [])
      owned same_view
