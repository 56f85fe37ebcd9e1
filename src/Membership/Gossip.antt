-- ===== src/Membership/Gossip.antt =====
-- `Merge` of a digest: which full entries are asked for, and what happens to the local ones.
use mathlib.Core.Path.{fun_ext}
use dfs_go.Common.{
  ℕ, ◌≡◌, refl, ◌∙◌, String, List, [], ◌∷◌, Bool, true, Option, some, none, ltb, ◌==◌, ◌&&◌,
  if◌then◌else◌, ite, string_discrete, arith, ap, map, select, Option-cases, Bool-cases, inl, inr,
  max,
}
use dfs_go.Membership.{
  NodeState, ClusterState, NodeInfo, GossipDigest, get_node, merge_digest, merge, rank,
}
use dfs_go.Membership.Update.{View, view, get_node-written}

-- The sender's digest is newer than the local entry, or there is none.
abbrev pub newer_than : Option NodeInfo → ℕ → Bool
newer_than none generation = true
newer_than (some n) generation = ltb n.generation generation

-- One digest against the view of one node: a worse state of the same generation is taken.
abbrev pub worsen : View → String → GossipDigest → View
worsen none q d = none
worsen (some (s, g)) q d =
    if d.generation == g && ltb (rank s) (rank d.state)
    then ite (string_discrete d.addr q) (some (d.state, g)) (some (s, g))
    else some (s, g)

pub view-merge_digest :
    (cs : ClusterState) (d : GossipDigest) (now : ℕ) (q : String)
    → view (merge_digest cs d now).0 q ≡ worsen (view cs q) q d
unfolding merge_digest
view-merge_digest cs d now q = elim (Option-cases (get_node cs d.addr)) [
  | inl e ↦ rw (e, merge_digest) (ground (arith, e, ap (get_node cs) {x = d.addr} {y = q}))
  | inr (n, e) ↦
      let n' = record n { state = d.state; last_updated = now } in
      elim (Bool-cases (ltb n.generation d.generation)) [
        | inl ahead ↦
            rw (e, merge_digest, ahead)
              (ground (arith, e, ahead, ap (get_node cs) {x = d.addr} {y = q}))
        | inr level ↦
            elim (Bool-cases (d.generation == n.generation && ltb (rank n.state) (rank d.state))) [
              | inl worse ↦
                  rw (e, merge_digest, level, worse)
                    (ground (
                      arith,
                      e,
                      worse,
                      ap (get_node cs) {x = d.addr} {y = q},
                      get_node-written cs d.addr q n' n.state d.state,
                    ))
              | inr same ↦
                  rw (e, merge_digest, level, same)
                    (ground (arith, e, same, ap (get_node cs) {x = d.addr} {y = q}))
            ]
      ]
]

merge_digest-wanted :
    (cs : ClusterState) (d : GossipDigest) (now : ℕ)
    → (merge_digest cs d now).1 ≡ newer_than (get_node cs d.addr) d.generation
unfolding merge_digest
merge_digest-wanted cs d now = ground arith

-- the digests that a merge leaves to be asked for in full
abbrev pub is_news : ClusterState → GossipDigest → Bool
is_news cs d = newer_than (get_node cs d.addr) d.generation

-- only generations decide, and a merge keeps them
is_news-merge_digest :
    (cs : ClusterState) (d e : GossipDigest) (now : ℕ)
    → is_news (merge_digest cs d now).0 e ≡ is_news cs e
is_news-merge_digest cs d e now = ground (arith, view-merge_digest cs d now e.addr)

-- Merge asks in full for exactly the digests that are newer than the table it starts from, in
-- their order: unknown nodes and strictly larger generations.
pub merge_need_full :
    (cs : ClusterState) (ds : List GossipDigest) (now : ℕ)
    → (merge cs ds now).1 ≡ map (λ d. d.addr) (select (is_news cs) ds)
unfolding merge select
merge_need_full cs [] now = refl
merge_need_full cs (d ∷ ds) now = ground (
  arith,
  merge_need_full (merge_digest cs d now).0 ds now,
  merge_digest-wanted cs d now,
  ap (λ p. map (λ x. x.addr) (select p ds)) (fun_ext (λ x. is_news-merge_digest cs d x now)),
)

-- What a whole digest does to the view of one node.
pub worsened : View → String → List GossipDigest → View
worsened v q [] = v
worsened v q (d ∷ ds) = worsened (worsen v q d) q ds

view-merge :
    (cs : ClusterState) (ds : List GossipDigest) (now : ℕ) (q : String)
    → view (merge cs ds now).0 q ≡ worsened (view cs q) q ds
unfolding merge worsened
view-merge cs [] now q = refl
view-merge cs (d ∷ ds) now q =
    view-merge (merge_digest cs d now).0 ds now q
    ∙ ap (λ v. worsened v q ds) (view-merge_digest cs d now q)

-- The state number of a digest that speaks of node `q` at generation `g`.
abbrev pub said : String → ℕ → GossipDigest → ℕ
said q g d = ite (string_discrete d.addr q) (if d.generation == g then rank d.state else 0) 0

pub worst_said : String → ℕ → List GossipDigest → ℕ
worst_said q g [] = 0
worst_said q g (d ∷ ds) = max (said q g d) (worst_said q g ds)

worsened-rank :
    (q : String) (s : NodeState) (g : ℕ) (ds : List GossipDigest)
    → (s' : NodeState) × (worsened (some (s, g)) q ds ≡ some (s', g))
      × (rank s' ≡ max (rank s) (worst_said q g ds))
unfolding worsened worst_said
worsened-rank q s g [] = (s, refl, omega arith)
worsened-rank q s g (d ∷ ds) = elim (string_discrete d.addr q) [
  | yes same ↦ elim (Bool-cases (d.generation == g && ltb (rank s) (rank d.state))) [
    | inl worse ↦
        let (s', e, r) = worsened-rank q d.state g ds in
        (s', ground (arith, e, worse), ground (arith, r, worse))
    | inr fine ↦
        let (s', e, r) = worsened-rank q s g ds in
        (s', ground (arith, e, fine), ground (arith, r, fine))
  ]
  | no other ↦ let (s', e, r) = worsened-rank q s g ds in (s', ground (arith, e), ground (arith, r))
]

-- Merge keeps the generation of a known node and moves its state to the worst one that the digest
-- reports for that generation (Alive < Suspect < Dead < Left), or keeps the local state if that is
-- worse already.
pub merge_takes_worst :
    (cs : ClusterState) (ds : List GossipDigest) (now : ℕ) (q : String) (s : NodeState) (g : ℕ)
    → view cs q ≡ some (s, g)
    → (s' : NodeState) × (view (merge cs ds now).0 q ≡ some (s', g))
      × (rank s' ≡ max (rank s) (worst_said q g ds))
merge_takes_worst cs ds now q s g e =
    let (s', f, r) = worsened-rank q s g ds in
    (s', view-merge cs ds now q ∙ ap (λ v. worsened v q ds) e ∙ f, r)
