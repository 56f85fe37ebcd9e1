-- ===== src/HashRing/Valid.antt =====
-- The ring's three tables agree, and adding or removing a node keeps them so.
use mathlib.Core.List.{lookup}
use dfs_go.Common.{
  ℕ, zero, suc, ◌+◌, ◌<◌, ◌≡◌, refl, String, List, [], ◌∷◌, ◌++◌, Bool, true, false, none, some,
  leb, if◌then◌else◌, length, contains, contains-append, IsDistinct, string_discrete, ℕ_discrete,
  arith, Bool-cases, inl, inr, leb-IsTotal, ap,
}
use dfs_go.Common.Assoc.{insert, delete, lookup-insert, lookup-delete, insert-IsDistinct}
use dfs_go.Common.Sort.{sort_by, IsSortedBy, sort_by-IsSortedBy, contains-sort_by}
use dfs_go.HashRing.{HashRing, has_node, members, forget, assign, vnode_hashes, add_node}

abbrev pub on_ring : HashRing → ℕ → Bool
on_ring hr h = contains ℕ_discrete hr.sorted_hashes h

pub record IsValid (hr : HashRing) : Type 0 where
  pub ordered : IsSortedBy leb hr.sorted_hashes
  pub single : IsDistinct string_discrete (members hr)
  -- a position on the ring belongs to a node that lists it
  pub owned :
      (h : ℕ)
      → on_ring hr h ≡ true
      → (a : String) × (hs : List ℕ) × (lookup ℕ_discrete h hr.hash_to_node ≡ some a)
        × (lookup string_discrete a hr.node_to_hashes ≡ some hs)
        × (contains ℕ_discrete hs h ≡ true)
  -- what a node lists is on the ring, and is the node's
  pub placed :
      (a : String) (hs : List ℕ) (h : ℕ)
      → lookup string_discrete a hr.node_to_hashes ≡ some hs
      → contains ℕ_discrete hs h ≡ true
      → (on_ring hr h ≡ true) × (lookup ℕ_discrete h hr.hash_to_node ≡ some a)
  -- every node has a position
  pub peopled :
      (a : String) (hs : List ℕ)
      → lookup string_discrete a hr.node_to_hashes ≡ some hs
      → 0 < length hs

pub lookup-assign :
    (addr : String) (hs : List ℕ) (m : List (ℕ × String)) (h : ℕ)
    → lookup ℕ_discrete h (assign addr hs m)
      ≡ (if contains ℕ_discrete hs h then some addr else lookup ℕ_discrete h m)
unfolding assign contains
lookup-assign addr [] m h = refl
lookup-assign addr (x ∷ hs) m h = ground (
  arith,
  lookup-assign addr hs (insert ℕ_discrete x addr m) h,
  lookup-insert ℕ_discrete x h addr m,
)

pub lookup-forget :
    (hs : List ℕ) (m : List (ℕ × String)) (h : ℕ)
    → lookup ℕ_discrete h (forget hs m)
      ≡ (if contains ℕ_discrete hs h then none else lookup ℕ_discrete h m)
unfolding forget contains
lookup-forget [] m h = refl
lookup-forget (x ∷ hs) m h =
    ground (arith, lookup-forget hs (delete ℕ_discrete x m) h, lookup-delete ℕ_discrete x h m)

pub length-vnode_hashes :
    (hash_key : String → ℕ) (addr : String) (rounds i : ℕ)
    → length (vnode_hashes hash_key addr rounds i) ≡ rounds
unfolding vnode_hashes
length-vnode_hashes hash_key addr zero i = refl
length-vnode_hashes hash_key addr (suc rounds) i =
    ap suc (length-vnode_hashes hash_key addr rounds (i + 1))

pub has_node-none :
    (hr : HashRing) (addr : String)
    → has_node hr addr ≡ false
    → lookup string_discrete addr hr.node_to_hashes ≡ none
unfolding has_node
has_node-none hr addr h = ground arith

module _ (hash_key : String → ℕ) (hr : HashRing) (addr : String) where
  -- the new node's positions
  abbrev pub fresh_hashes : List ℕ
  fresh_hashes = vnode_hashes hash_key addr hr.virtual_nodes 0

  -- No position of the new node is taken: SHA-256 has no collision on the labels in use.
  abbrev pub IsFresh : Type 0
  IsFresh = (h : ℕ) → contains ℕ_discrete fresh_hashes h ≡ true → on_ring hr h ≡ false

  pub add_new :
      has_node hr addr ≡ false
      → add_node hash_key hr addr ≡ record hr {
        sorted_hashes = sort_by leb (hr.sorted_hashes ++ fresh_hashes);
        hash_to_node = assign addr fresh_hashes hr.hash_to_node;
        node_to_hashes = insert string_discrete addr fresh_hashes hr.node_to_hashes;
      }
  unfolding add_node
  add_new e = rw e

  pub on_ring-add :
      (h : ℕ)
      → contains ℕ_discrete (sort_by leb (hr.sorted_hashes ++ fresh_hashes)) h
        ≡ (if on_ring hr h then true else contains ℕ_discrete fresh_hashes h)
  on_ring-add h = rw (
    contains-sort_by leb ℕ_discrete (hr.sorted_hashes ++ fresh_hashes) h,
    contains-append ℕ_discrete hr.sorted_hashes fresh_hashes h,
  )

  abbrev pub grown : HashRing
  grown = record hr {
    sorted_hashes = sort_by leb (hr.sorted_hashes ++ fresh_hashes);
    hash_to_node = assign addr fresh_hashes hr.hash_to_node;
    node_to_hashes = insert string_discrete addr fresh_hashes hr.node_to_hashes;
  }

  module _ (v : IsValid hr) (new : has_node hr addr ≡ false) (fresh : IsFresh) where
    grown_owned :
        (h : ℕ)
        → on_ring grown h ≡ true
        → (a : String) × (hs : List ℕ) × (lookup ℕ_discrete h grown.hash_to_node ≡ some a)
          × (lookup string_discrete a grown.node_to_hashes ≡ some hs)
          × (contains ℕ_discrete hs h ≡ true)
    grown_owned h on = elim (Bool-cases (contains ℕ_discrete fresh_hashes h)) [
      | inl mine ↦ (
        addr,
        fresh_hashes,
        ground (arith, lookup-assign addr fresh_hashes hr.hash_to_node h),
        ground (arith, lookup-insert string_discrete addr addr fresh_hashes hr.node_to_hashes),
        mine,
      )
      | inr other ↦
          let (a, hs, p, q, r) = v.owned h (ground (arith, on_ring-add h)) in
          (
            a,
            hs,
            ground (arith, lookup-assign addr fresh_hashes hr.hash_to_node h),
            ground (
              arith,
              lookup-insert string_discrete addr a fresh_hashes hr.node_to_hashes,
              has_node-none hr addr new,
              ap (λ k. lookup string_discrete k hr.node_to_hashes),
            ),
            r,
          )
    ]

    grown_placed :
        (a : String) (hs : List ℕ) (h : ℕ)
        → lookup string_discrete a grown.node_to_hashes ≡ some hs
        → contains ℕ_discrete hs h ≡ true
        → (on_ring grown h ≡ true) × (lookup ℕ_discrete h grown.hash_to_node ≡ some a)
    grown_placed a hs h look listed = elim (string_discrete addr a) [
      | yes e ↦
          let same : fresh_hashes ≡ hs =
            ground (arith, lookup-insert string_discrete addr a fresh_hashes hr.node_to_hashes) in
          let mine : contains ℕ_discrete fresh_hashes h ≡ true = rw same listed in
          ground (arith, on_ring-add h, lookup-assign addr fresh_hashes hr.hash_to_node h, mine)
      | no e ↦
          let old : lookup string_discrete a hr.node_to_hashes ≡ some hs =
            ground (arith, lookup-insert string_discrete addr a fresh_hashes hr.node_to_hashes) in
          ground (
            arith,
            v.placed a hs h old listed,
            fresh h,
            on_ring-add h,
            lookup-assign addr fresh_hashes hr.hash_to_node h,
          )
    ]

    grown_peopled :
        0 < hr.virtual_nodes
        → (a : String) (hs : List ℕ) → lookup string_discrete a grown.node_to_hashes ≡ some hs
        → 0 < length hs
    grown_peopled some_vnodes a hs look = elim (string_discrete addr a) [
      | yes e ↦
          let same : fresh_hashes ≡ hs =
            ground (arith, lookup-insert string_discrete addr a fresh_hashes hr.node_to_hashes) in
          rw (← same) (omega (arith, length-vnode_hashes hash_key addr hr.virtual_nodes 0))
      | no e ↦
          v.peopled a hs
            (ground (arith, lookup-insert string_discrete addr a fresh_hashes hr.node_to_hashes))
    ]

  -- Adding a node keeps the tables in agreement: a node of the ring always, and a new one where
  -- each node has at least one position and no position of the new node is taken.
  pub add_node-IsValid :
      IsValid hr
      → (has_node hr addr ≡ false → (0 < hr.virtual_nodes) × IsFresh)
      → IsValid (add_node hash_key hr addr)
  add_node-IsValid v if_new = elim (Bool-cases (has_node hr addr)) [
    | inl old ↦ unfold add_node in rw old v
    | inr new ↦ rw (add_new new) (record {
      ordered = sort_by-IsSortedBy leb leb-IsTotal (hr.sorted_hashes ++ fresh_hashes);
      single =
          unfold members in
          insert-IsDistinct string_discrete addr fresh_hashes hr.node_to_hashes
            (unfold members in v.single);
      owned = grown_owned v new (if_new new).1;
      placed = grown_placed v new (if_new new).1;
      peopled = grown_peopled v new (if_new new).1 (if_new new).0;
    })
  ]
