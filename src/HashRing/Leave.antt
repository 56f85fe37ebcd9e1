-- ===== src/HashRing/Leave.antt =====
-- `RemoveNode`: the tables stay in agreement, and removing a node undoes adding it.
use mathlib.Core.List.{lookup, append-nil}
use mathlib.Core.Path.{ap₂}
use dfs_go.Common.{
  ℕ, ◌≡◌, String, List, ◌++◌, true, false, not, none, some, leb, contains, contains-select, select,
  string_discrete, ℕ_discrete, arith, Option-cases, inl, inr, leb-IsTotal, ap, ◌∙◌, select-append,
  select_all, select_none,
}
use dfs_go.Common.Assoc.{insert, delete, lookup-insert, lookup-delete, delete-IsDistinct}
use dfs_go.Common.Sort.{sort_by, IsSortedBy, select-sort_by, sort_by_sorted, select-IsSortedBy}
use dfs_go.HashRing.{HashRing, has_node, members, forget, remove_node, assign, add_node}
use dfs_go.HashRing.Valid.{
  IsValid, on_ring, lookup-forget, lookup-assign, add_new, has_node-none, IsFresh, grown,
  fresh_hashes,
}

module _ (hr : HashRing) (addr : String) (gone : List ℕ) where
  -- the ring without the node that lists the positions `gone`
  abbrev shrunk : HashRing
  shrunk = record hr {
    sorted_hashes = select (λ h. not (contains ℕ_discrete gone h)) hr.sorted_hashes;
    hash_to_node = forget gone hr.hash_to_node;
    node_to_hashes = delete string_discrete addr hr.node_to_hashes;
  }

  remove_old :
      lookup string_discrete addr hr.node_to_hashes ≡ some gone → remove_node hr addr ≡ shrunk
  unfolding remove_node
  remove_old e = rw (e, remove_node)

  module _ (v : IsValid hr) (here : lookup string_discrete addr hr.node_to_hashes ≡ some gone) where
    shrunk_owned :
        (h : ℕ)
        → on_ring shrunk h ≡ true
        → (a : String) × (hs : List ℕ) × (lookup ℕ_discrete h shrunk.hash_to_node ≡ some a)
          × (lookup string_discrete a shrunk.node_to_hashes ≡ some hs)
          × (contains ℕ_discrete hs h ≡ true)
    shrunk_owned h on =
        let split =
          contains-select ℕ_discrete (λ x. not (contains ℕ_discrete gone x)) hr.sorted_hashes h in
        let kept : contains ℕ_discrete gone h ≡ false = ground (arith, split, on) in
        let was : on_ring hr h ≡ true = ground (arith, split, on) in
        let (a, hs, p, q, r) = v.owned h was in
        (
          a,
          hs,
          ground (arith, lookup-forget gone hr.hash_to_node h),
          ground (
            arith,
            lookup-delete string_discrete addr a hr.node_to_hashes,
            ap (λ k. lookup string_discrete k hr.node_to_hashes),
          ),
          r,
        )

    shrunk_placed :
        (a : String) (hs : List ℕ) (h : ℕ)
        → lookup string_discrete a shrunk.node_to_hashes ≡ some hs
        → contains ℕ_discrete hs h ≡ true
        → (on_ring shrunk h ≡ true) × (lookup ℕ_discrete h shrunk.hash_to_node ≡ some a)
    shrunk_placed a hs h look listed = ground (
      arith,
      lookup-delete string_discrete addr a hr.node_to_hashes,
      v.placed a hs h,
      v.placed addr gone h,
      lookup-forget gone hr.hash_to_node h,
      contains-select ℕ_discrete (λ x. not (contains ℕ_discrete gone x)) hr.sorted_hashes h,
    )

    shrunk-IsValid : IsValid shrunk
    shrunk-IsValid = record {
      ordered =
          select-IsSortedBy leb (λ h. not (contains ℕ_discrete gone h)) hr.sorted_hashes v.ordered;
      single =
          unfold members in
          delete-IsDistinct string_discrete addr hr.node_to_hashes (unfold members in v.single);
      owned = shrunk_owned;
      placed = shrunk_placed;
      peopled = λ a hs look.
          v.peopled a hs (ground (arith, lookup-delete string_discrete addr a hr.node_to_hashes));
    }

remove_absent :
    (hr : HashRing) (addr : String)
    → lookup string_discrete addr hr.node_to_hashes ≡ none
    → remove_node hr addr ≡ hr
unfolding remove_node
remove_absent hr addr e = rw (e, remove_node)

-- Removing a node, on the ring or not, keeps the tables in agreement.
pub remove_node-IsValid :
    (hr : HashRing) (addr : String) → IsValid hr → IsValid (remove_node hr addr)
remove_node-IsValid hr addr v =
    elim (Option-cases (lookup string_discrete addr hr.node_to_hashes)) [
      | inl e ↦ rw (remove_absent hr addr e) v
      | inr (gone, e) ↦ rw (remove_old hr addr gone e) (shrunk-IsValid hr addr gone v e)
    ]

module _ (hash_key : String → ℕ) (hr : HashRing) (addr : String)
    (fresh : IsFresh hash_key hr addr) where
  abbrev hashes : List ℕ
  hashes = fresh_hashes hash_key hr addr

  positions_restored :
      IsSortedBy leb hr.sorted_hashes
      → select (λ h. not (contains ℕ_discrete hashes h)) (sort_by leb (hr.sorted_hashes ++ hashes))
        ≡ hr.sorted_hashes
  positions_restored sorted =
      let p = λ (h : ℕ). not (contains ℕ_discrete hashes h) in
      select-sort_by leb leb-IsTotal p (hr.sorted_hashes ++ hashes)
      ∙ ap (sort_by leb) (
          select-append p hr.sorted_hashes hashes
          ∙ ap₂ ◌++◌ (select_all ℕ_discrete p hr.sorted_hashes (λ h m. ground (arith, fresh h)))
              (select_none ℕ_discrete p hashes (λ h m. ground (arith, m)))
          ∙ append-nil hr.sorted_hashes)
      ∙ sort_by_sorted leb leb-IsTotal hr.sorted_hashes sorted

-- Removing a node that was just added restores the ring: the same positions in the same order,
-- the same owner of each, and the same nodes. The node is new and its positions are free.
pub remove-add :
    (hash_key : String → ℕ) (hr : HashRing) (addr : String)
    → IsValid hr
    → has_node hr addr ≡ false
    → IsFresh hash_key hr addr
    → ((remove_node (add_node hash_key hr addr) addr).sorted_hashes ≡ hr.sorted_hashes)
      × ((h : ℕ)
          → on_ring hr h ≡ true
          → lookup ℕ_discrete h (remove_node (add_node hash_key hr addr) addr).hash_to_node
            ≡ lookup ℕ_discrete h hr.hash_to_node)
      × ((a : String)
          → lookup string_discrete a (remove_node (add_node hash_key hr addr) addr).node_to_hashes
            ≡ lookup string_discrete a hr.node_to_hashes)
remove-add hash_key hr addr v new fresh =
    let hs = fresh_hashes hash_key hr addr in
    rw
      (
        add_new hash_key hr addr new,
        remove_old (grown hash_key hr addr) addr hs
            (ground (arith, lookup-insert string_discrete addr addr hs hr.node_to_hashes)),
      )
      (
        positions_restored hash_key hr addr fresh v.ordered,
        λ h m. ground (
          arith,
          fresh h,
          lookup-forget hs (assign addr hs hr.hash_to_node) h,
          lookup-assign addr hs hr.hash_to_node h,
        ),
        λ a. ground (
          arith,
          lookup-delete string_discrete addr a (insert string_discrete addr hs hr.node_to_hashes),
          lookup-insert string_discrete addr a hs hr.node_to_hashes,
          has_node-none hr addr new,
          ap (λ k. lookup string_discrete k hr.node_to_hashes),
        ),
      )
