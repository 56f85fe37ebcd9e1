-- ===== src/Membership/Update.antt =====
-- `UpdateState` against its specification: per node, a register that keeps the newest generation.
use mathlib.Core.List.{append-nil}
use dfs_go.Common.{
  ℕ, ◌≡◌, refl, sym, String, List, [], ◌∷◌, ◌++◌, Bool, true, false, Option, none, some, leb,
  if◌then◌else◌, ite, string_discrete, arith, Option-cases, Bool-cases, inl, inr, not,
}
use dfs_go.Common.Assoc.{lookup-insert}
use dfs_go.Membership.{
  NodeState, alive, node_info, ClusterState, NodeInfo, Change, get_node, put_node, fire_change,
  update_state,
}

-- What the protocol compares of an entry: its state and its generation.
abbrev pub View : Type 0
View = Option (NodeState × ℕ)

abbrev pub glance : Option NodeInfo → View
glance none = none
glance (some n) = some (n.state, n.generation)

abbrev pub view : ClusterState → String → View
view cs q = glance (get_node cs q)

-- The specification of an update of one entry.
abbrev pub absorb : View → NodeState → ℕ → View
absorb none state generation = some (state, generation)
absorb (some (old, g)) state generation =
    if leb generation g then some (old, g) else some (state, generation)

abbrev pub accepts : View → ℕ → Bool
accepts none generation = true
accepts (some (old, g)) generation = not (leb generation g)

pub get_node-put_node :
    (cs : ClusterState) (a q : String) (n : NodeInfo)
    → get_node (put_node cs a n) q ≡ ite (string_discrete a q) (some n) (get_node cs q)
unfolding get_node put_node
get_node-put_node cs a q n = lookup-insert string_discrete a q n cs.nodes

-- an announced write
pub get_node-written :
    (cs : ClusterState) (a q : String) (n : NodeInfo) (before after : NodeState)
    → get_node (fire_change (put_node cs a n) a before after) q
      ≡ ite (string_discrete a q) (some n) (get_node cs q)
unfolding get_node fire_change put_node
get_node-written cs a q n before after = lookup-insert string_discrete a q n cs.nodes

-- The changes that an update announces to the listeners.
abbrev pub announced : View → String → NodeState → ℕ → List Change
announced none a state generation = record { addr = a; old_state = alive; new_state = state } ∷ []
announced (some (old, g)) a state generation =
    if leb generation g then [] else record { addr = a; old_state = old; new_state = state } ∷ []

-- What a call of UpdateState does to a table `cs`, with its result `r`.
pub record Updates (cs : ClusterState) (addr : String) (state : NodeState) (generation : ℕ)
    (r : ClusterState × Bool) : Type 0 where
  pub entry : view r.0 addr ≡ absorb (view cs addr) state generation
  pub others : (q : String) → ¬ (addr ≡ q) → get_node r.0 q ≡ get_node cs q
  pub result : r.1 ≡ accepts (view cs addr) generation
  pub listeners : r.0.fired ≡ cs.fired ++ announced (view cs addr) addr state generation
  pub stale : r.1 ≡ false → r.0 ≡ cs

-- UpdateState takes an unknown node, or a strictly newer generation of a known one, and reports
-- true; else it reports false and leaves the table as it was. Other entries stay, and the
-- listeners hear of exactly the updates that are taken.
pub update_state-Updates :
    (cs : ClusterState) (addr : String) (state : NodeState) (generation now : ℕ)
    → Updates cs addr state generation (update_state cs addr state generation now)
unfolding update_state fire_change put_node
update_state-Updates cs addr state generation now = elim (Option-cases (get_node cs addr)) [
  | inl e ↦
      let n = node_info addr state generation now [] in
      rw (e, update_state)
        (record {
          entry = ground (arith, e, get_node-written cs addr addr n alive state);
          others = λ q h. ground (arith, h, get_node-written cs addr q n alive state);
          result = rw e;
          listeners = rw e;
          stale = λ h. absurd (ground arith);
        })
  | inr (m, e) ↦
      let n = record m { state = state; generation = generation; last_updated = now } in
      elim (Bool-cases (leb generation m.generation)) [
        | inl old ↦
            rw (e, update_state, old)
              (record {
                entry = ground (arith, e, old);
                others = λ q h. refl;
                result = rw (e, old);
                listeners = rw (e, old) (sym (append-nil cs.fired));
                stale = λ _. refl;
              })
        | inr newer ↦
            rw (e, update_state, newer)
              (record {
                entry = ground (arith, e, get_node-written cs addr addr n m.state state, newer);
                others = λ q h. ground (arith, h, get_node-written cs addr q n m.state state);
                result = rw (e, newer);
                listeners = rw (e, newer);
                stale = λ h. absurd (ground arith);
              })
      ]
]
