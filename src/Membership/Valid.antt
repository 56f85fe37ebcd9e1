-- ===== src/Membership/Valid.antt =====
-- The invariant of the table, over every method that changes it.
use mathlib.Core.List.{lookup}
use dfs_go.Common.{
  ℕ, ◌^◌, ◌<◌, ◌≡◌, refl, String, List, [], ◌∷◌, some, leb, ltb, ◌==◌, ◌&&◌, string_discrete, arith,
  Option-cases, Bool-cases, inl, inr, IsDistinct, contains,
}
use dfs_go.Common.Assoc.{keys, lookup-delete, insert-IsDistinct, delete-IsDistinct}
use dfs_go.Membership.{
  NodeState, alive, ClusterState, NodeInfo, node_info, GossipDigest, Metadata, get_node, put_node,
  fire_change, update_state, add_node, remove_node, force_local_state, bumped, set_metadata,
  overlay, merge_digest, merge, bump_self_generation, new, rank,
}
use dfs_go.Membership.Update.{get_node-put_node}

-- Each address has one entry, which carries that address and a generation of 64 bits.
pub record IsValid (cs : ClusterState) : Type 0 where
  pub single : IsDistinct string_discrete (keys cs.nodes)
  pub named : (q : String) (n : NodeInfo) → get_node cs q ≡ some n → n.addr ≡ q
  pub in_range : (q : String) (n : NodeInfo) → get_node cs q ≡ some n → n.generation < 2 ^ 64

abbrev Fits : String → NodeInfo → Type 0
Fits a n = (n.addr ≡ a) × (n.generation < 2 ^ 64)

put_node-IsValid :
    (cs : ClusterState) (a : String) (n : NodeInfo)
    → Fits a n
    → IsValid cs
    → IsValid (put_node cs a n)
put_node-IsValid cs a n f v = record {
  single = unfold put_node in insert-IsDistinct string_discrete a n cs.nodes v.single;
  named = λ q m e. elim (string_discrete a q) [
    | yes same ↦ ground (arith, f.0, get_node-put_node cs a q n)
    | no other ↦ v.named q m (ground (arith, get_node-put_node cs a q n))
  ];
  in_range = λ q m e. elim (string_discrete a q) [
    | yes same ↦ ground (arith, f.1, get_node-put_node cs a q n)
    | no other ↦ v.in_range q m (ground (arith, get_node-put_node cs a q n))
  ];
}

fire_change-IsValid :
    (cs : ClusterState) (a : String) (o n : NodeState) → IsValid cs → IsValid (fire_change cs a o n)
fire_change-IsValid cs a o n v = record {
  single = unfold fire_change in v.single;
  named = unfold fire_change get_node in v.named;
  in_range = unfold fire_change get_node in v.in_range;
}

new-IsValid : (self : String) (now : ℕ) → IsValid (new self now)
unfolding new get_node lookup contains
new-IsValid self now = record {
  single = (refl, tt);
  named = λ q n e. ground arith;
  in_range = λ q n e. ground arith;
}

add_node-IsValid :
    (cs : ClusterState) (a : String) (meta : Metadata) (now : ℕ)
    → IsValid cs
    → IsValid (add_node cs a meta now)
unfolding add_node
add_node-IsValid cs a meta now v = elim (Option-cases (get_node cs a)) [
  | inl e ↦
      rw (e, add_node)
        (fire_change-IsValid (put_node cs a (node_info a alive 1 now meta)) a alive alive
          (put_node-IsValid cs a (node_info a alive 1 now meta) (refl, omega arith) v))
  | inr (n, e) ↦ rw (e, add_node) v
]

remove_node-IsValid : (cs : ClusterState) (a : String) → IsValid cs → IsValid (remove_node cs a)
unfolding remove_node get_node
remove_node-IsValid cs a v = record {
  single = delete-IsDistinct string_discrete a cs.nodes v.single;
  named = λ q n e. v.named q n (ground (arith, lookup-delete string_discrete a q cs.nodes));
  in_range = λ q n e. v.in_range q n (ground (arith, lookup-delete string_discrete a q cs.nodes));
}

update_state-IsValid :
    (cs : ClusterState) (a : String) (s : NodeState) (g now : ℕ)
    → g < 2 ^ 64
    → IsValid cs
    → IsValid (update_state cs a s g now).0
unfolding update_state
update_state-IsValid cs a s g now bound v = elim (Option-cases (get_node cs a)) [
  | inl e ↦
      rw (e, update_state)
        (fire_change-IsValid (put_node cs a (node_info a s g now [])) a alive s
          (put_node-IsValid cs a (node_info a s g now []) (refl, bound) v))
  | inr (n, e) ↦
      let n' = record n { state = s; generation = g; last_updated = now } in
      elim (Bool-cases (leb g n.generation)) [
        | inl old ↦ rw (e, update_state, old) v
        | inr newer ↦
            rw (e, update_state, newer)
              (fire_change-IsValid (put_node cs a n') a n.state s
                (put_node-IsValid cs a n' (v.named a n e, bound) v))
      ]
]

pub bumped-lt : (g now : ℕ) → bumped g now < 2 ^ 64
unfolding bumped
bumped-lt g now = ground arith

force_local_state-IsValid :
    (cs : ClusterState) (a : String) (s : NodeState) (now : ℕ)
    → IsValid cs
    → IsValid (force_local_state cs a s now)
unfolding force_local_state
force_local_state-IsValid cs a s now v = elim (Option-cases (get_node cs a)) [
  | inl e ↦ rw (e, force_local_state) v
  | inr (n, e) ↦
      let n' = record n { state = s; generation = bumped n.generation now; last_updated = now } in
      rw (e, force_local_state)
        (fire_change-IsValid (put_node cs a n') a n.state s
          (put_node-IsValid cs a n' (v.named a n e, bumped-lt n.generation now) v))
]

set_metadata-IsValid :
    (cs : ClusterState) (a : String) (meta : Metadata)
    → IsValid cs
    → IsValid (set_metadata cs a meta)
unfolding set_metadata
set_metadata-IsValid cs a meta v = elim (Option-cases (get_node cs a)) [
  | inl e ↦ rw (e, set_metadata) v
  | inr (n, e) ↦
      rw (e, set_metadata)
        (put_node-IsValid cs a (record n { metadata = overlay n.metadata meta })
          (v.named a n e, v.in_range a n e) v)
]

bump_self_generation-IsValid :
    (cs : ClusterState) (now : ℕ) → IsValid cs → IsValid (bump_self_generation cs now)
unfolding bump_self_generation
bump_self_generation-IsValid cs now v = elim (Option-cases (get_node cs cs.self_addr)) [
  | inl e ↦ rw (e, bump_self_generation) v
  | inr (n, e) ↦
      rw (e, bump_self_generation)
        (put_node-IsValid cs cs.self_addr
          (record n { generation = bumped n.generation now; last_updated = now })
          (v.named cs.self_addr n e, bumped-lt n.generation now) v)
]

merge_digest-IsValid :
    (cs : ClusterState) (d : GossipDigest) (now : ℕ)
    → IsValid cs
    → IsValid (merge_digest cs d now).0
unfolding merge_digest
merge_digest-IsValid cs d now v = elim (Option-cases (get_node cs d.addr)) [
  | inl e ↦ rw (e, merge_digest) v
  | inr (n, e) ↦ elim (Bool-cases (ltb n.generation d.generation)) [
    | inl ahead ↦ rw (e, merge_digest, ahead) v
    | inr level ↦
        elim (Bool-cases (d.generation == n.generation && ltb (rank n.state) (rank d.state))) [
          | inl worse ↦
              let n' = record n { state = d.state; last_updated = now } in
              rw (e, merge_digest, level, worse)
                (fire_change-IsValid (put_node cs d.addr n') d.addr n.state d.state
                  (put_node-IsValid cs d.addr n' (v.named d.addr n e, v.in_range d.addr n e) v))
          | inr same ↦ rw (e, merge_digest, level, same) v
        ]
  ]
]

merge-IsValid :
    (cs : ClusterState) (ds : List GossipDigest) (now : ℕ)
    → IsValid cs
    → IsValid (merge cs ds now).0
unfolding merge
merge-IsValid cs [] now v = v
merge-IsValid cs (d ∷ ds) now v =
    merge-IsValid (merge_digest cs d now).0 ds now (merge_digest-IsValid cs d now v)

-- The calls that change a table, in any order and at any time; a generation that arrives over the
-- network is a uint64.
pub data Step (cs : ClusterState) : ClusterState → Type 0 where
  added : (a : String) (meta : Metadata) (now : ℕ) → Step cs (add_node cs a meta now)
  removed : (a : String) → Step cs (remove_node cs a)
  updated :
      (a : String) (s : NodeState) (g now : ℕ) → g < 2 ^ 64 → Step cs (update_state cs a s g now).0
  forced : (a : String) (s : NodeState) (now : ℕ) → Step cs (force_local_state cs a s now)
  described : (a : String) (meta : Metadata) → Step cs (set_metadata cs a meta)
  merged : (ds : List GossipDigest) (now : ℕ) → Step cs (merge cs ds now).0
  refuted : (now : ℕ) → Step cs (bump_self_generation cs now)

pub data Reach (cs : ClusterState) : ClusterState → Type 0 where
  here : Reach cs cs
  next : {t u : ClusterState} → Reach cs t → Step t u → Reach cs u

pub Step-IsValid : {t u : ClusterState} → Step t u → IsValid t → IsValid u
Step-IsValid {t} (added a meta now) v = add_node-IsValid t a meta now v
Step-IsValid {t} (removed a) v = remove_node-IsValid t a v
Step-IsValid {t} (updated a s g now bound) v = update_state-IsValid t a s g now bound v
Step-IsValid {t} (forced a s now) v = force_local_state-IsValid t a s now v
Step-IsValid {t} (described a meta) v = set_metadata-IsValid t a meta v
Step-IsValid {t} (merged ds now) v = merge-IsValid t ds now v
Step-IsValid {t} (refuted now) v = bump_self_generation-IsValid t now v

Reach-IsValid : {t u : ClusterState} → Reach t u → IsValid t → IsValid u
Reach-IsValid here v = v
Reach-IsValid (next r s) v = Step-IsValid s (Reach-IsValid r v)

-- Whatever calls a table has been through since New, each address has one entry, which carries
-- that address and a generation of 64 bits.
pub reachable-IsValid :
    (self : String) (now : ℕ) {cs : ClusterState} → Reach (new self now) cs → IsValid cs
reachable-IsValid self now r = Reach-IsValid r (new-IsValid self now)
