-- ===== src/HashRing/Nodes.antt =====
-- `GetNodes` and `GetPrimaryNode` on a ring whose tables agree.
use native.Mathlib.Nat.{mod-eq_of_lt, add-mod_right, mod-lt}
use dfs_go.Common.{
  ℕ, suc, ◌+◌, ◌-◌, ◌%◌, ◌≤◌, ◌<◌, min, ◌≡◌, refl, ◌∙◌, String, List, [], ◌∷◌, true, ltb, ◌==◌,
  if◌then◌else◌, length, get_or, contains, string_discrete, ℕ_discrete, arith, tests, All,
  IsDistinct, Bool-cases, inl, inr, ap, length-le_of_contains, index_of_contains, contains-get_or,
  length-map, dec_le, leb, leb→lt,
}
use dfs_go.Common.Assoc.{lookup_of_key}
use dfs_go.HashRing.{
  HashRing, owner, has_node, members, size, search, walk, get_nodes, get_primary_node,
}
use dfs_go.HashRing.Search.{position, search-lt, Clockwise, search-Clockwise}
use dfs_go.HashRing.Walk.{
  visited, walk-IsDistinct, length-walk-le, walk-All, walk-covers, walk_full,
}
use dfs_go.HashRing.Valid.{IsValid, on_ring}

-- The node that owns a position of the ring is on the ring.
owner-has_node :
    (hr : HashRing) (h : ℕ) → IsValid hr → on_ring hr h ≡ true → has_node hr (owner hr h) ≡ true
unfolding has_node owner
owner-has_node hr h v on = let (a, hs, p, q, r) = v.owned h on in rw (p, q, has_node) refl

-- Going clockwise from any start, every index of the ring is visited.
round_trip :
    (start p len : ℕ) → start < len → p < len → (k : ℕ) × (k < len) × ((start + k) % len ≡ p)
round_trip start p len hs hp = elim (dec_le start p) [
  | yes le ↦ (p - start, omega arith, ap (λ (t : ℕ). t % len) (omega arith) ∙ mod-eq_of_lt hp)
  | no gt ↦ (
    p + len - start,
    omega arith,
    ap (λ (t : ℕ). t % len) (omega arith) ∙ add-mod_right p len ∙ mod-eq_of_lt hp,
  )
]

module _ (hr : HashRing) (v : IsValid hr) where
  -- a node has a position, which it owns
  member_position :
      (a : String)
      → contains string_discrete (members hr) a ≡ true
      → (p : ℕ) × (p < length hr.sorted_hashes) × (owner hr (position hr.sorted_hashes p) ≡ a)
  unfolding owner members
  member_position a m =
      let (hs, look) = lookup_of_key string_discrete a hr.node_to_hashes m in
      let h = position hs 0 in
      let (on, own) =
        v.placed a hs h look (contains-get_or ℕ_discrete hs 0 0 (v.peopled a hs look)) in
      let (p, lt, at) = index_of_contains ℕ_discrete hr.sorted_hashes h 0 on in
      (p, lt, rw (at, own) refl)

  length-members : length (members hr) ≡ size hr
  unfolding members size
  length-members = length-map (λ e. e.0) hr.node_to_hashes

  -- with no position there is no node
  no_positions : length hr.sorted_hashes ≡ 0 → size hr ≡ 0
  no_positions e = elim (Bool-cases (leb (size hr) 0)) [
    | inl none_left ↦ ground arith
    | inr more ↦
        let (p, lt, at) = member_position (get_or (members hr) 0 "") (
          contains-get_or string_discrete (members hr) 0 ""
            (omega (tests, length-members, leb→lt (size hr) 0 more))) in
        absurd (omega arith)
  ]

  module _ (n start : ℕ) (inside : start < length hr.sorted_hashes) where
    abbrev gathered : List String
    gathered = walk hr n start (length hr.sorted_hashes) 0 []

    gathered_members : All (λ a. has_node hr a ≡ true) gathered
    gathered_members =
        walk-All hr n start (λ a. has_node hr a ≡ true) (length hr.sorted_hashes) 0 []
          (λ k.
            let i = (start + k) % length hr.sorted_hashes in
            owner-has_node hr (position hr.sorted_hashes i) v
              (contains-get_or ℕ_discrete hr.sorted_hashes i 0 (mod-lt (start + k) (omega arith))))
          tt

    gathered_all :
        ((k : ℕ)
          → 0 ≤ k
          → k < 0 + length hr.sorted_hashes
          → contains string_discrete gathered (visited hr n start k) ≡ true)
        → size hr ≤ length gathered
    gathered_all seen = rw (← length-members) (
        length-le_of_contains string_discrete (members hr) gathered (v.single) (λ a m.
          let (p, lt, at) = member_position a m in
          let (k, klt, round) = round_trip start p (length hr.sorted_hashes) inside lt in
          let found = seen k (omega arith) (omega arith) in rw (round, at) at found))

    length-gathered : n ≤ size hr → length gathered ≡ n
    length-gathered le = elim (walk-covers hr n start (length hr.sorted_hashes) 0 []) [
      | inl full ↦
          omega (arith, length-walk-le hr n start (length hr.sorted_hashes) 0 [] (omega arith))
      | inr seen ↦ omega (
        arith,
        gathered_all seen,
        length-walk-le hr n start (length hr.sorted_hashes) 0 [] (omega arith),
      )
    ]

-- On a ring whose tables agree, GetNodes returns distinct nodes of the ring, and as many as asked
-- for or as the ring has, whichever is less.
pub get_nodes_correct :
    (hash_key : String → ℕ) (hr : HashRing) (key : String) (n : ℕ)
    → IsValid hr
    → IsDistinct string_discrete (get_nodes hash_key hr key n)
      × All (λ a. has_node hr a ≡ true) (get_nodes hash_key hr key n)
      × (length (get_nodes hash_key hr key n) ≡ min n (size hr))
unfolding get_nodes
get_nodes_correct hash_key hr key n v = elim (Bool-cases (length hr.sorted_hashes == 0)) [
  | inl e ↦ rw e (tt, tt, omega (arith, no_positions hr v (ground arith)))
  | inr e ↦
      let start = search hr (hash_key key) in
      let inside = search-lt hr (hash_key key) (ground (arith, e)) in
      let n' = if ltb (size hr) n then size hr else n in
      rw e (
        walk-IsDistinct hr n' start (length hr.sorted_hashes) 0 [] tt,
        gathered_members hr v n' start inside,
        ground (arith, length-gathered hr v n' start inside),
      )
]

walk_first :
    (hr : HashRing) (start rounds : ℕ)
    → start < length hr.sorted_hashes
    → walk hr 1 start (suc rounds) 0 [] ≡ owner hr (position hr.sorted_hashes start) ∷ []
unfolding walk contains
walk_first hr start rounds h =
    let e : (start + 0) % length hr.sorted_hashes ≡ start =
      ap (λ (t : ℕ). t % length hr.sorted_hashes) (omega arith) ∙ mod-eq_of_lt h in
    rw e (
      walk_full hr 1 start rounds 1 (owner hr (position hr.sorted_hashes start) ∷ []) (omega arith))

-- The primary node of a key owns the first position clockwise from the key's hash.
pub get_primary_node-Clockwise :
    (hash_key : String → ℕ) (hr : HashRing) (key : String)
    → IsValid hr
    → 0 < size hr
    → (start : ℕ) × Clockwise hr (hash_key key) start
      × (get_primary_node hash_key hr key ≡ owner hr (position hr.sorted_hashes start))
unfolding get_primary_node get_nodes
get_primary_node-Clockwise hash_key hr key v some_node =
    let start = search hr (hash_key key) in
    let n = length hr.sorted_hashes in
    let some_position : 0 < n = grind (arith, no_positions hr v) in
    let e : n ≡ suc (n - 1) = omega arith in
    let first = walk_first hr start (n - 1) (search-lt hr (hash_key key) some_position) in
    (start, search-Clockwise hr (hash_key key) v.ordered, ground (arith, first, e))
