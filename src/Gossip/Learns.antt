-- ===== src/Gossip/Learns.antt =====
-- What a node learns from the response to its digest (Cluster/gossip/gossip.go).
use dfs_go.Common.{ℕ, ◌≡◌, refl, sym, ap, ◌∙◌, arith, String, string_discrete, List, [], ◌∷◌}
use dfs_go.Common.{
  Bool, true, false, Option, none, some, leb, ◌||◌, ◌&&◌, ltb, ◌==◌, All, ◌⊎◌, inl, inr,
}
use dfs_go.Common.{Bool-cases, Option-cases, ite, All-map}
use dfs_go.Membership.{NodeState, NodeInfo, GossipDigest, ClusterState, get_node, update_state}
use dfs_go.Membership.{rank, set_metadata, merge, merge_digest, put_node, overlay, Metadata}
use dfs_go.Membership.Update.{View, view, glance, absorb, Updates, update_state-Updates}
use dfs_go.Membership.Update.{get_node-put_node}
use dfs_go.Membership.Gossip.{view-merge_digest, worsen}
use dfs_go.Gossip.{
  GossipService, MessageGossipResponse, same_name, is_self, node_is_self, apply_info,
}
use dfs_go.Gossip.{apply_entry, apply_full, apply_one, apply_address, apply_wanted, handle_response}
use dfs_go.Gossip.{digest_map, known_addrs}
use mathlib.Core.List.{lookup}
use mathlib.Core.Path.{subst}

-- the view has a record of the generation `g` or a newer one
abbrev pub at_least : View → ℕ → Bool
at_least none g = false
at_least (some (s, h)) g = leb g h

absorb_keeps :
    (v : View) (s : NodeState) (h g : ℕ) → at_least v g ≡ true → at_least (absorb v s h) g ≡ true
absorb_keeps none s h g k = absurd cc
absorb_keeps (some (t, old)) s h g k = elim (Bool-cases (leb h old)) [
  | inl e ↦ rw e k
  | inr e ↦ rw e (ground (arith, k, e))
]

absorb_takes : (v : View) (s : NodeState) (h : ℕ) → at_least (absorb v s h) h ≡ true
absorb_takes none s h = ground arith
absorb_takes (some (t, old)) s h = elim (Bool-cases (leb h old)) [
  | inl e ↦ rw e e
  | inr e ↦ rw e (ground arith)
]

-- Nothing that a table knows is lost from `t` to `u`.
abbrev pub Grows : ClusterState → ClusterState → Type 0
Grows t u = (q : String) (g : ℕ) → at_least (view t q) g ≡ true → at_least (view u q) g ≡ true

update_state-Grows :
    (cs : ClusterState) (a : String) (s : NodeState) (h now : ℕ)
    → Grows cs (update_state cs a s h now).0
update_state-Grows cs a s h now q g k = elim (string_discrete a q) [
  | yes e ↦
      subst (λ x. at_least (view (update_state cs a s h now).0 x) g ≡ true) e
        (ap (λ v. at_least v g) u.entry
          ∙ absorb_keeps (view cs a) s h g (subst (λ x. at_least (view cs x) g ≡ true) (sym e) k))
  | no ne ↦ ap (λ n. at_least (glance n) g) (u.others q ne) ∙ k
]
  where
    u : Updates cs a s h (update_state cs a s h now)
    u = update_state-Updates cs a s h now

view-set_metadata :
    (cs : ClusterState) (a q : String) (m : Metadata) → view (set_metadata cs a m) q ≡ view cs q
unfolding set_metadata
view-set_metadata cs a q m = elim (Option-cases (get_node cs a)) [
  | inl e ↦ rw (e, set_metadata) refl
  | inr (n, e) ↦ rw (e, set_metadata) (same n e)
]
  where
    same :
        (n : NodeInfo)
        → get_node cs a ≡ some n
        → view (put_node cs a (record n { metadata = overlay n.metadata m })) q ≡ view cs q
    same n e = elim (string_discrete a q) [
      | yes p ↦ ground (
        arith,
        get_node-put_node cs a q (record n { metadata = overlay n.metadata m }),
        e,
        ap (get_node cs) p,
      )
      | no ne ↦
          ground (arith, get_node-put_node cs a q (record n { metadata = overlay n.metadata m }))
    ]

apply_info-Grows :
    (cs : ClusterState) (info : NodeInfo) (now : ℕ) → Grows cs (apply_info cs info now)
unfolding apply_info
apply_info-Grows cs info now q g k =
    ap (λ v. at_least v g)
      (view-set_metadata (update_state cs info.addr info.state info.generation now).0 info.addr q
        info.metadata)
    ∙ update_state-Grows cs info.addr info.state info.generation now q g k

apply_info_learns :
    (cs : ClusterState) (info : NodeInfo) (now : ℕ)
    → at_least (view (apply_info cs info now) info.addr) info.generation ≡ true
unfolding apply_info
apply_info_learns cs info now =
    ap (λ v. at_least v info.generation)
      (view-set_metadata (update_state cs info.addr info.state info.generation now).0 info.addr
        info.addr info.metadata)
    ∙ ap (λ v. at_least v info.generation)
        (update_state-Updates cs info.addr info.state info.generation now).entry
    ∙ absorb_takes (view cs info.addr) info.state info.generation

worsen_keeps :
    (v : View) (q : String) (d : GossipDigest) (g : ℕ) → at_least (worsen v q d) g ≡ at_least v g
worsen_keeps none q d g = refl
worsen_keeps (some (s, h)) q d g =
    elim (Bool-cases (d.generation == h && ltb (rank s) (rank d.state))) [
      | inl e ↦ rw e (named (string_discrete d.addr q))
      | inr e ↦ rw e refl
    ]
  where
    named :
        (t : Dec (d.addr ≡ q))
        → at_least (ite t (some (d.state, h)) (some (s, h))) g ≡ at_least (some (s, h)) g
    named (yes e) = refl
    named (no ne) = refl

merge-Grows : (cs : ClusterState) (ds : List GossipDigest) (now : ℕ) → Grows cs (merge cs ds now).0
unfolding merge
merge-Grows cs [] now q g k = k
merge-Grows cs (d ∷ ds) now q g k =
    merge-Grows (merge_digest cs d now).0 ds now q g
      (ap (λ v. at_least v g) (view-merge_digest cs d now q) ∙ worsen_keeps (view cs q) q d g ∙ k)

apply_one-Grows :
    (cs : ClusterState) (d : Option GossipDigest) (now : ℕ) → Grows cs (apply_one cs d now)
unfolding apply_one
apply_one-Grows cs none now q g k = k
apply_one-Grows cs (some d) now q g k = update_state-Grows cs d.addr d.state d.generation now q g k

-- the entry is the receiver's own, or the table has it or a newer one
abbrev pub Learnt : GossipService → ClusterState → NodeInfo → Type 0
Learnt gs cs info = (is_self gs info ≡ true) ⊎ (at_least (view cs info.addr) info.generation ≡ true)

Learnt-Grows :
    (gs : GossipService) (t u : ClusterState) (info : NodeInfo)
    → Grows t u
    → Learnt gs t info
    → Learnt gs u info
Learnt-Grows gs t u info grows (inl e) = inl e
Learnt-Grows gs t u info grows (inr k) = inr (grows info.addr info.generation k)

module _ (gs : GossipService) (now : ℕ) where
  apply_address-Grows :
      (m : List (String × GossipDigest)) (addr : String) (cs : ClusterState)
      → Grows cs (apply_address gs m now addr cs)
  unfolding apply_address
  apply_address-Grows m addr cs q g k =
      elim (Bool-cases (same_name addr gs.self_addr || node_is_self gs (get_node cs addr))) [
        | inl e ↦ rw e k
        | inr e ↦ rw e (apply_one-Grows cs (lookup string_discrete addr m) now q g k)
      ]

  apply_wanted-Grows :
      (m : List (String × GossipDigest)) (wanted : List String) (cs : ClusterState)
      → Grows cs (apply_wanted gs m now wanted cs)
  unfolding apply_wanted
  apply_wanted-Grows m [] cs q g k = k
  apply_wanted-Grows m (addr ∷ wanted) cs q g k =
      apply_wanted-Grows m wanted (apply_address gs m now addr cs) q g
        (apply_address-Grows m addr cs q g k)

  module _ (known : List String) where
    apply_entry-Grows :
        (info : NodeInfo) (cs : ClusterState) (dials : List String)
        → Grows cs (apply_entry gs known now info cs dials).0
    unfolding apply_entry
    apply_entry-Grows info cs dials q g k = elim (Bool-cases (is_self gs info)) [
      | inl e ↦ rw e k
      | inr e ↦ rw e (apply_info-Grows cs info now q g k)
    ]

    apply_full-Grows :
        (infos : List NodeInfo) (cs : ClusterState) (dials : List String)
        → Grows cs (apply_full gs known now infos cs dials).0
    unfolding apply_full
    apply_full-Grows [] cs dials q g k = k
    apply_full-Grows (info ∷ infos) cs dials q g k =
        let r = apply_entry gs known now info cs dials in
        apply_full-Grows infos r.0 r.1 q g (apply_entry-Grows info cs dials q g k)

    apply_entry-Learnt :
        (info : NodeInfo) (cs : ClusterState) (dials : List String)
        → Learnt gs (apply_entry gs known now info cs dials).0 info
    unfolding apply_entry
    apply_entry-Learnt info cs dials = elim (Bool-cases (is_self gs info)) [
      | inl e ↦ inl e
      | inr e ↦ inr (rw e (apply_info_learns cs info now))
    ]

    apply_full-Learnt :
        (infos : List NodeInfo) (cs : ClusterState) (dials : List String)
        → All (λ info. Learnt gs (apply_full gs known now infos cs dials).0 info) infos
    unfolding apply_full
    apply_full-Learnt [] cs dials = tt
    apply_full-Learnt (info ∷ infos) cs dials =
        let r = apply_entry gs known now info cs dials in
        (
          Learnt-Grows gs r.0 _ info (apply_full-Grows infos r.0 r.1)
              (apply_entry-Learnt info cs dials),
          apply_full-Learnt infos r.0 r.1,
        )

-- After HandleResponse the table knows each entry of the response in its generation or a newer one,
-- but for entries that are taken for the node itself, by address or by fingerprint; and no node
-- that the table knew has gone back to an older generation.
pub handle_response-Learnt :
    (now : ℕ) (msg : MessageGossipResponse) (gs : GossipService)
    → All (λ info. Learnt gs (handle_response now msg gs).cluster info) msg.full
      × Grows gs.cluster (handle_response now msg gs).cluster
unfolding handle_response
handle_response-Learnt now msg gs = (
  All-map (λ info l. Learnt-Grows gs full.0 _ info later l) msg.full
      (apply_full-Learnt gs now known msg.full gs.cluster []),
  λ q g k. later q g (apply_full-Grows gs now known msg.full gs.cluster [] q g k),
)
  where
    known : List String
    known = known_addrs gs.cluster

    full : ClusterState × List String
    full = apply_full gs known now msg.full gs.cluster []

    merged : ClusterState × List String
    merged = merge full.0 msg.my_digest now

    later : Grows full.0 (apply_wanted gs (digest_map msg.my_digest []) now merged.1 merged.0)
    later q g k =
        apply_wanted-Grows gs now (digest_map msg.my_digest []) merged.1 merged.0 q g
          (merge-Grows full.0 msg.my_digest now q g k)
