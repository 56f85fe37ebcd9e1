-- ===== src/Gossip/Table.antt =====
-- The handlers of Cluster/gossip/gossip.go keep the invariant of the membership table.
use dfs_go.Common.{ℕ, ◌^◌, ◌<◌, ◌≡◌, String, List, [], ◌∷◌, Option, none, some, All}
use dfs_go.Common.{Bool-cases, inl, inr, ◌||◌, not, contains, string_discrete}
use dfs_go.Common.{ite, if_pos, if_neg, sym, refl, ◌∙◌}
use dfs_go.Common.Assoc.{insert, lookup-insert}
use dfs_go.Membership.{NodeInfo, GossipDigest, ClusterState}
use dfs_go.Membership.{merge, is_alive, get_node}
use dfs_go.Membership.Valid.{IsValid, Step-IsValid, added, updated, described, merged}
use dfs_go.Gossip.{GossipService, MessageGossipDigest, MessageGossipResponse, same_name, is_self}
use dfs_go.Gossip.{node_is_self, is_outdated, enter_node, scan_digest, scan_digests, find_dials}
use dfs_go.Gossip.{handle_digest, apply_info, apply_entry, apply_full, apply_one, apply_address}
use dfs_go.Gossip.{apply_wanted, handle_response, digest_map, dial_wanted, known_addrs}
use mathlib.Core.List.{lookup}
use mathlib.Core.Path.{subst}

some_inj : {A : Type 0} {a b : A} → some a ≡ some b → a ≡ b
some_inj e = cc

abbrev pub Fits : GossipDigest → Type 0
Fits d = d.generation < 2 ^ 64

enter_node-IsValid :
    (cs : ClusterState) (d : GossipDigest) (now : ℕ)
    → Fits d
    → IsValid cs
    → IsValid (enter_node cs d now)
unfolding enter_node
enter_node-IsValid cs d now fits v =
    Step-IsValid (updated d.addr d.state d.generation now fits)
      (Step-IsValid (added d.addr [] now) v)

module _ (gs : GossipService) (peers known : List String) (now : ℕ) where
  scan_digest-IsValid :
      (d : GossipDigest) (cs : ClusterState) (dials : List String)
      → Fits d
      → IsValid cs
      → IsValid (scan_digest gs peers known now d cs dials).0
  unfolding scan_digest
  scan_digest-IsValid d cs dials fits v = elim (Bool-cases (same_name d.addr gs.self_addr)) [
    | inl a ↦ rw a v
    | inr a ↦ elim (Bool-cases (not (is_alive d.state) || contains string_discrete peers d.addr)) [
      | inl b ↦ rw (a, b) v
      | inr b ↦ elim (Bool-cases (not (contains string_discrete known d.addr))) [
        | inl c ↦ rw (a, b, c) (enter_node-IsValid cs d now fits v)
        | inr c ↦ elim (Bool-cases (is_outdated (get_node cs d.addr) d)) [
          | inl o ↦ rw (a, b, c, o) v
          | inr o ↦ rw (a, b, c, o) v
        ]
      ]
    ]
  ]

  scan_digests-IsValid :
      (ds : List GossipDigest) (cs : ClusterState) (dials : List String)
      → All Fits ds
      → IsValid cs
      → IsValid (scan_digests gs peers known now ds cs dials).0
  unfolding scan_digests
  scan_digests-IsValid [] cs dials fits v = v
  scan_digests-IsValid (d ∷ ds) cs dials fits v =
      scan_digests-IsValid ds (scan_digest gs peers known now d cs dials).0
        (scan_digest gs peers known now d cs dials).1 fits.1
        (scan_digest-IsValid d cs dials fits.0 v)

  find_dials-IsValid :
      (ds : List GossipDigest) (cs : ClusterState) (need_full : List String)
      → All Fits ds
      → IsValid cs
      → IsValid (find_dials gs peers known now ds cs need_full).0
  unfolding find_dials
  find_dials-IsValid ds cs need_full fits v = elim (Bool-cases gs.has_on_new_peer) [
    | inl e ↦ simp e (
        scan_digests-IsValid ds cs (dial_wanted gs peers known (digest_map ds []) cs need_full [])
          fits v)
    | inr e ↦ simp e v
  ]

-- every digest that the map holds fits
abbrev FitsAll : List (String × GossipDigest) → Type 0
FitsAll m = (addr : String) (d : GossipDigest) → lookup string_discrete addr m ≡ some d → Fits d

digest_map-FitsAll :
    (ds : List GossipDigest) (m : List (String × GossipDigest))
    → All Fits ds
    → FitsAll m
    → FitsAll (digest_map ds m)
unfolding digest_map
digest_map-FitsAll [] m fits h = h
digest_map-FitsAll (d ∷ ds) m fits h =
    digest_map-FitsAll ds (insert string_discrete d.addr d m) fits.1
      (λ addr e at. placed addr e (lookup-insert string_discrete d.addr addr d m) at)
  where
    placed :
        (addr : String) (e : GossipDigest)
        → lookup string_discrete addr (insert string_discrete d.addr d m)
          ≡ ite (string_discrete d.addr addr) (some d) (lookup string_discrete addr m)
        → lookup string_discrete addr (insert string_discrete d.addr d m) ≡ some e
        → Fits e
    placed addr e same at = elim (string_discrete d.addr addr) [
      | yes p ↦
          let q : d ≡ e =
            some_inj (sym (if_pos (string_discrete d.addr addr) p _ _) ∙ sym same ∙ at) in
          subst Fits q fits.0
      | no n ↦ h addr e (sym (if_neg (string_discrete d.addr addr) n _ _) ∙ sym same ∙ at)
    ]

apply_info-IsValid :
    (cs : ClusterState) (info : NodeInfo) (now : ℕ)
    → info.generation < 2 ^ 64
    → IsValid cs
    → IsValid (apply_info cs info now)
unfolding apply_info
apply_info-IsValid cs info now fits v =
    Step-IsValid (described info.addr info.metadata)
      (Step-IsValid (updated info.addr info.state info.generation now fits) v)

apply_one-IsValid :
    (cs : ClusterState) (d : Option GossipDigest) (now : ℕ)
    → ((e : GossipDigest) → d ≡ some e → Fits e)
    → IsValid cs
    → IsValid (apply_one cs d now)
unfolding apply_one
apply_one-IsValid cs none now fits v = v
apply_one-IsValid cs (some d) now fits v =
    Step-IsValid (updated d.addr d.state d.generation now (fits d refl)) v

module _ (gs : GossipService) (now : ℕ) where
  apply_entry-IsValid :
      (known : List String) (info : NodeInfo) (cs : ClusterState) (dials : List String)
      → info.generation < 2 ^ 64
      → IsValid cs
      → IsValid (apply_entry gs known now info cs dials).0
  unfolding apply_entry
  apply_entry-IsValid known info cs dials fits v = elim (Bool-cases (is_self gs info)) [
    | inl e ↦ rw e v
    | inr e ↦ rw e (apply_info-IsValid cs info now fits v)
  ]

  apply_full-IsValid :
      (known : List String) (infos : List NodeInfo) (cs : ClusterState) (dials : List String)
      → All (λ info. info.generation < 2 ^ 64) infos
      → IsValid cs
      → IsValid (apply_full gs known now infos cs dials).0
  unfolding apply_full
  apply_full-IsValid known [] cs dials fits v = v
  apply_full-IsValid known (info ∷ infos) cs dials fits v =
      let r = apply_entry gs known now info cs dials in
      apply_full-IsValid known infos r.0 r.1 fits.1
        (apply_entry-IsValid known info cs dials fits.0 v)

  apply_wanted-IsValid :
      (m : List (String × GossipDigest)) (wanted : List String) (cs : ClusterState)
      → FitsAll m
      → IsValid cs
      → IsValid (apply_wanted gs m now wanted cs)
  unfolding apply_wanted apply_address
  apply_wanted-IsValid m [] cs fits v = v
  apply_wanted-IsValid m (addr ∷ wanted) cs fits v =
      elim (Bool-cases (same_name addr gs.self_addr || node_is_self gs (get_node cs addr))) [
        | inl e ↦ rw e (apply_wanted-IsValid m wanted cs fits v)
        | inr e ↦ rw e (
            apply_wanted-IsValid m wanted (apply_one cs (lookup string_discrete addr m) now) fits
              (apply_one-IsValid cs (lookup string_discrete addr m) now (fits addr) v))
      ]

-- Both handlers keep the membership table valid, one entry for each address with a generation of
-- 64 bits, whatever a peer sends, as long as the generations in the messages are uint64s.
handlers-IsValid :
    (gs : GossipService) (peers : List String) (now : ℕ) (asked : MessageGossipDigest)
    (answer : MessageGossipResponse)
    → All Fits asked.digests
    → All (λ info. info.generation < 2 ^ 64) answer.full
    → All Fits answer.my_digest
    → IsValid gs.cluster
    → IsValid (handle_digest peers now asked gs).0.cluster
      × IsValid (handle_response now answer gs).cluster
unfolding handle_digest handle_response
handlers-IsValid gs peers now asked answer fits full mine v = (
  find_dials-IsValid gs peers (known_addrs gs.cluster) now asked.digests
      (merge gs.cluster asked.digests now).0 (merge gs.cluster asked.digests now).1 fits
      (Step-IsValid (merged asked.digests now) v),
  apply_wanted-IsValid gs now (digest_map answer.my_digest []) _ _
      (digest_map-FitsAll answer.my_digest [] mine (λ addr d at. absurd (unfold lookup in cc)))
      (Step-IsValid (merged answer.my_digest now)
        (apply_full-IsValid gs now (known_addrs gs.cluster) answer.full gs.cluster [] full v)),
)
