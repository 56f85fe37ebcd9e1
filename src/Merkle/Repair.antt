-- ===== src/Merkle/Repair.antt =====
-- `repair` against its specification: which keys it sends and asks for.
use dfs_go.Common.{
  ◌≡◌, refl, ◌∙◌, sym, String, List, [], ◌∷◌, Bool, true, false, Option, none, some, if◌then◌else◌,
  contains, string_discrete, arith, ap, IsDistinct, map, select, contains-select, Bool-cases, inl,
  inr, not, Option-cases,
}
use dfs_go.Merkle.{
  Node, Tree, hash_of, collect_keys, dedupe, root_hash, diff_roots, diff, build, Action, send_key,
  need_key, leave_to_conflict, decide, repair, handle_sync,
}
use dfs_go.Merkle.Shape.{build-root}
use dfs_go.Merkle.Collision.{roots_free, same_keys}
use dfs_go.Merkle.Diff.{diff_nodes_complete, contains-dedupe, dedupe-IsDistinct}

-- the keys handed to `onSendKey`, in order
pub sent : List Action → List String
sent [] = []
sent (send_key k ∷ acts) = k ∷ sent acts
sent (need_key k ∷ acts) = sent acts
sent (leave_to_conflict k ∷ acts) = sent acts

-- the keys handed to `onNeedKey`, in order
pub needed : List Action → List String
needed [] = []
needed (send_key k ∷ acts) = needed acts
needed (need_key k ∷ acts) = k ∷ needed acts
needed (leave_to_conflict k ∷ acts) = needed acts

-- the key is in the first list and not in the second
pub only : List String → List String → String → Bool
only mine theirs k =
    if contains string_discrete mine k then not (contains string_discrete theirs k) else false

sent-decide :
    (mine theirs ks : List String)
    → sent (map (decide mine theirs) ks) ≡ select (only mine theirs) ks
unfolding sent decide only select
sent-decide mine theirs [] = refl
sent-decide mine theirs (k ∷ ks) = elim (Bool-cases (contains string_discrete mine k)) [
  | inl a ↦ elim (Bool-cases (contains string_discrete theirs k)) [
    | inl b ↦ rw (a, b) (sent-decide mine theirs ks)
    | inr b ↦ rw (a, b) (ap (◌∷◌ k) (sent-decide mine theirs ks))
  ]
  | inr a ↦ elim (Bool-cases (contains string_discrete theirs k)) [
    | inl b ↦ rw (a, b) (sent-decide mine theirs ks)
    | inr b ↦ rw (a, b) (sent-decide mine theirs ks)
  ]
]

needed-decide :
    (mine theirs ks : List String)
    → needed (map (decide mine theirs) ks) ≡ select (only theirs mine) ks
unfolding needed decide only select
needed-decide mine theirs [] = refl
needed-decide mine theirs (k ∷ ks) = elim (Bool-cases (contains string_discrete mine k)) [
  | inl a ↦ elim (Bool-cases (contains string_discrete theirs k)) [
    | inl b ↦ rw (a, b) (needed-decide mine theirs ks)
    | inr b ↦ rw (a, b) (needed-decide mine theirs ks)
  ]
  | inr a ↦ elim (Bool-cases (contains string_discrete theirs k)) [
    | inl b ↦ rw (a, b) (ap (◌∷◌ k) (needed-decide mine theirs ks))
    | inr b ↦ rw (a, b) (needed-decide mine theirs ks)
  ]
]

select-IsDistinct :
    (p : String → Bool) (ks : List String)
    → IsDistinct string_discrete ks
    → IsDistinct string_discrete (select p ks)
unfolding select
select-IsDistinct p [] d = tt
select-IsDistinct p (k ∷ ks) d =
    ground (arith, contains-select string_discrete p ks k, select-IsDistinct p ks)

module _ {Hash : Type 0} (dec : Discrete Hash) (leaf_hash : String → Hash)
    (pair_hash : Hash → Hash → Hash) (zero_hash : Hash) where
  -- the root stands for these keys
  abbrev Holds : Option (Node Hash) → List String → Type 0
  Holds none ks = ks ≡ []
  Holds (some n) ks =
      (k : String) → contains string_discrete (collect_keys n) k ≡ contains string_discrete ks k

  build-Holds :
      (le : String → String → Bool) (ks : List String)
      → Holds (build leaf_hash pair_hash le ks).root ks
  build-Holds le [] = unfold build in refl
  build-Holds le (k ∷ ks) =
      let (n, e, hashed, same) = build-root leaf_hash pair_hash le k ks in rw e same

  -- SHA-256 has no collision among the nodes of the trees of two key sets.
  abbrev pub AreApart : (String → String → Bool) → List String → List String → Type 0
  AreApart le mine theirs =
      roots_free dec zero_hash (build leaf_hash pair_hash le mine).root
        (build leaf_hash pair_hash le theirs).root
      ≡ true

  abbrev top : Option (Node Hash) → Hash
  top none = zero_hash
  top (some n) = hash_of n

  -- roots of one hash stand for the same keys
  same_root :
      (o p : Option (Node Hash)) (ks js : List String) (k : String)
      → roots_free dec zero_hash o p ≡ true
      → Holds o ks
      → Holds p js
      → top o ≡ top p
      → contains string_discrete ks k ≡ contains string_discrete js k
  same_root none none ks js k f ho hp e = rw (ho, hp)
  same_root none (some b) ks js k f ho hp e = absurd (ground (arith, f, sym e))
  same_root (some a) none ks js k f ho hp e = absurd (ground (arith, f, e))
  same_root (some a) (some b) ks js k f ho hp e =
      sym (ho k) ∙ ap (λ q. contains string_discrete q k) (same_keys dec a b f e) ∙ hp k

  found :
      (o p : Option (Node Hash)) (ks js : List String) (k : String)
      → roots_free dec zero_hash o p ≡ true
      → Holds o ks
      → Holds p js
      → ¬ (contains string_discrete ks k ≡ contains string_discrete js k)
      → contains string_discrete (diff_roots dec zero_hash o p) k ≡ true
  unfolding diff_roots
  found none none ks js k f ho hp d = absurd (d (rw (ho, hp)))
  found none (some b) ks js k f ho hp d = unfold contains in ground (arith, ho, hp k, d)
  found (some a) none ks js k f ho hp d = unfold contains in ground (arith, hp, ho k, d)
  found (some a) (some b) ks js k f ho hp d =
      diff_nodes_complete dec zero_hash a b k f (λ e. d (sym (ho k) ∙ e ∙ hp k))

  root_hash-top : (t : Tree Hash) → root_hash dec zero_hash t ≡ top t.root
  unfolding root_hash
  root_hash-top t = elim (Option-cases t.root) [ inl e ↦ rw e | inr (n, e) ↦ rw e ]

  diff_apart :
      (t u : Tree Hash)
      → ¬ (root_hash dec zero_hash t ≡ root_hash dec zero_hash u)
      → diff dec zero_hash t u ≡ dedupe [] (diff_roots dec zero_hash t.root u.root)
  unfolding diff
  diff_apart t u e = ground arith

  diff_same :
      (t u : Tree Hash)
      → root_hash dec zero_hash t ≡ root_hash dec zero_hash u
      → diff dec zero_hash t u ≡ []
  unfolding diff
  diff_same t u e = ground arith

  diff-IsDistinct : (t u : Tree Hash) → IsDistinct string_discrete (diff dec zero_hash t u)
  diff-IsDistinct t u = elim (dec (root_hash dec zero_hash t) (root_hash dec zero_hash u)) [
    | yes e ↦ rw (diff_same t u e) tt
    | no e ↦
        rw (diff_apart t u e) (dedupe-IsDistinct [] (diff_roots dec zero_hash t.root u.root) tt)
  ]

  -- Diff of the trees of two key sets lists every key that just one of them has.
  pub diff_complete :
      (le : String → String → Bool) (mine theirs : List String) (k : String)
      → AreApart le mine theirs
      → ¬ (contains string_discrete mine k ≡ contains string_discrete theirs k)
      → contains string_discrete
          (diff dec zero_hash
            (build leaf_hash pair_hash le mine)
            (build leaf_hash pair_hash le theirs))
          k
        ≡ true
  diff_complete le mine theirs k apart d =
      let t = build leaf_hash pair_hash le mine in
      let u = build leaf_hash pair_hash le theirs in
      let ht = build-Holds le mine in
      let hu = build-Holds le theirs in
      elim (dec (root_hash dec zero_hash t) (root_hash dec zero_hash u)) [
        | yes e ↦ absurd (
            d (
              same_root t.root u.root mine theirs k apart ht hu
                (sym (root_hash-top t) ∙ e ∙ root_hash-top u)))
        | no e ↦
            ap (λ q. contains string_discrete q k) (diff_apart t u e)
            ∙ contains-dedupe [] (diff_roots dec zero_hash t.root u.root) k
            ∙ found t.root u.root mine theirs k apart ht hu d
      ]

  -- A repair sends exactly the keys that we have and the peer lacks, asks for exactly those that
  -- the peer has and we lack, and does each once, provided that SHA-256 has no collision between
  -- the nodes of our tree and those of the peer's (so no key is the text of two hashes in them).
  pub repair_exact :
      (le : String → String → Bool) (mine theirs : List String)
      → AreApart le mine theirs
      → ((k : String)
          → (contains string_discrete
                (sent (repair dec leaf_hash pair_hash zero_hash le mine theirs))
                k
              ≡ only mine theirs k)
            × (contains string_discrete
                  (needed (repair dec leaf_hash pair_hash zero_hash le mine theirs))
                  k
                ≡ only theirs mine k))
        × IsDistinct string_discrete
            (sent (repair dec leaf_hash pair_hash zero_hash le mine theirs))
        × IsDistinct string_discrete
            (needed (repair dec leaf_hash pair_hash zero_hash le mine theirs))
  unfolding repair
  repair_exact le mine theirs apart =
      let d =
        diff dec zero_hash (build leaf_hash pair_hash le mine)
          (build leaf_hash pair_hash le theirs) in
      let distinct =
        diff-IsDistinct (build leaf_hash pair_hash le mine) (build leaf_hash pair_hash le theirs) in
      rw (sent-decide mine theirs d, needed-decide mine theirs d)
        (
          λ k. (
            contains-select string_discrete (only mine theirs) d k
                ∙ only_found mine theirs d k (diff_complete le mine theirs k apart),
            contains-select string_discrete (only theirs mine) d k
                ∙ only_found theirs mine d k
                    (λ e. diff_complete le mine theirs k apart (λ f. e (sym f))),
          ),
          select-IsDistinct (only mine theirs) d distinct,
          select-IsDistinct (only theirs mine) d distinct,
        )
    where
      only_found :
          (ks js d : List String) (k : String)
          → (¬ (contains string_discrete ks k ≡ contains string_discrete js k)
              → contains string_discrete d k ≡ true)
          → (if only ks js k then contains string_discrete d k else false) ≡ only ks js k
      only_found ks js d k f = unfold only in ground (arith, f)

  -- The roots of the trees of two key sets are the same hash only if the sets are the same, provided
  -- that SHA-256 has no collision between the nodes of the two trees; so HandleSync, which stays
  -- silent at an equal root, misses no divergence.
  pub handle_sync_silent :
      (le : String → String → Bool) (mine theirs : List String)
      → AreApart le mine theirs
      → handle_sync dec leaf_hash pair_hash zero_hash le mine
          (root_hash dec zero_hash (build leaf_hash pair_hash le theirs))
        ≡ none
      → (k : String) → contains string_discrete mine k ≡ contains string_discrete theirs k
  unfolding handle_sync
  handle_sync_silent le mine theirs apart h k =
      let t = build leaf_hash pair_hash le mine in
      let u = build leaf_hash pair_hash le theirs in
      let e : root_hash dec zero_hash t ≡ root_hash dec zero_hash u = ground (arith, h) in
      same_root t.root u.root mine theirs k apart (build-Holds le mine) (build-Holds le theirs)
        (sym (root_hash-top t) ∙ e ∙ root_hash-top u)
