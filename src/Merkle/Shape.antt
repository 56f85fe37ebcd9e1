-- ===== src/Merkle/Shape.antt =====
-- The tree that `Build` returns holds the given keys, and its hashes are those of its nodes.
use dfs_go.Common.{
  ℕ, zero, suc, ◌+◌, ◌≤◌, ◌<◌, ◌≡◌, refl, ◌∙◌, String, List, [], ◌∷◌, ◌++◌, Bool, false, some, map,
  length, contains, contains-append, string_discrete, arith, All, ap, length-map,
}
use dfs_go.Common.Sort.{sort_by, contains-sort_by, length-sort_by}
use dfs_go.Merkle.{
  Node, leaf, inner, hash_of, collect_keys, parent, pair_up, build_level, make_leaf, build,
}

module _ {Hash : Type 0} where
  -- all the keys under a layer
  pub layer_keys : List (Node Hash) → List String
  layer_keys [] = []
  layer_keys (n ∷ layer) = collect_keys n ++ layer_keys layer

module _ {Hash : Type 0} (leaf_hash : String → Hash) (pair_hash : Hash → Hash → Hash) where
  -- Every hash of the tree is computed from what stands below it.
  abbrev pub IsHashed : Node Hash → Type 0
  IsHashed (leaf h k) = h ≡ leaf_hash k
  IsHashed (inner h l r) = (h ≡ pair_hash (hash_of l) (hash_of r)) × IsHashed l × IsHashed r

  pair_up-IsHashed :
      (layer : List (Node Hash))
      → All IsHashed layer
      → All IsHashed (pair_up leaf_hash pair_hash layer)
  unfolding pair_up parent
  pair_up-IsHashed [] h = tt
  pair_up-IsHashed (l ∷ []) h = ((refl, h.0, h.0), tt)
  pair_up-IsHashed (l ∷ r ∷ layer) h = ((refl, h.0, h.1.0), pair_up-IsHashed layer h.1.1)

  contains-pair_up :
      (layer : List (Node Hash)) (k : String)
      → contains string_discrete (layer_keys (pair_up leaf_hash pair_hash layer)) k
        ≡ contains string_discrete (layer_keys layer) k
  unfolding pair_up parent layer_keys collect_keys
  contains-pair_up [] k = refl
  contains-pair_up (l ∷ []) k = ground (
    arith,
    contains-append string_discrete (collect_keys l ++ collect_keys l) [] k,
    contains-append string_discrete (collect_keys l) (collect_keys l) k,
    contains-append string_discrete (collect_keys l) [] k,
  )
  contains-pair_up (l ∷ r ∷ layer) k = ground (
    arith,
    contains-pair_up layer k,
    contains-append string_discrete (collect_keys l ++ collect_keys r)
        (layer_keys (pair_up leaf_hash pair_hash layer)) k,
    contains-append string_discrete (collect_keys l) (collect_keys r) k,
    contains-append string_discrete (collect_keys l) (collect_keys r ++ layer_keys layer) k,
    contains-append string_discrete (collect_keys r) (layer_keys layer) k,
  )

  length-pair_up :
      (layer : List (Node Hash))
      → length (pair_up leaf_hash pair_hash layer) + length (pair_up leaf_hash pair_hash layer)
        ≤ length layer + 1
  unfolding pair_up
  length-pair_up [] = omega arith
  length-pair_up (l ∷ []) = omega arith
  length-pair_up (l ∷ r ∷ layer) = omega (arith, length-pair_up layer)

  -- With as much fuel as nodes a layer is reduced to one root, over the same keys.
  pub build_level-root :
      (fuel : ℕ) (layer : List (Node Hash))
      → 0 < length layer
      → length layer ≤ fuel
      → All IsHashed layer
      → (n : Node Hash) × (build_level leaf_hash pair_hash fuel layer ≡ some n)
        × IsHashed n
        × ((k : String)
            → contains string_discrete (collect_keys n) k
              ≡ contains string_discrete (layer_keys layer) k)
  unfolding build_level
  build_level-root zero layer some_node f h = absurd (omega arith)
  build_level-root (suc fuel) [] some_node f h = absurd (omega arith)
  build_level-root (suc fuel) (l ∷ []) some_node f h = (
    l,
    refl,
    h.0,
    λ k.
        unfold layer_keys in
        ground (arith, contains-append string_discrete (collect_keys l) [] k, contains_nil k),
  )
    where
      contains_nil : (k : String) → contains string_discrete [] k ≡ false
      contains_nil k = unfold contains in refl
  build_level-root (suc fuel) (l ∷ r ∷ layer) some_node f h =
      let above = pair_up leaf_hash pair_hash (l ∷ r ∷ layer) in
      let (n, e, hashed, same) =
        build_level-root fuel above (unfold pair_up in omega arith)
          (omega (arith, length-pair_up (l ∷ r ∷ layer))) (pair_up-IsHashed (l ∷ r ∷ layer) h) in
      (n, e, hashed, λ k. same k ∙ contains-pair_up (l ∷ r ∷ layer) k)

  leaves-IsHashed : (ks : List String) → All IsHashed (map (make_leaf leaf_hash pair_hash) ks)
  unfolding make_leaf
  leaves-IsHashed [] = tt
  leaves-IsHashed (k ∷ ks) = (refl, leaves-IsHashed ks)

  leaves-keys : (ks : List String) → layer_keys (map (make_leaf leaf_hash pair_hash) ks) ≡ ks
  unfolding make_leaf layer_keys collect_keys
  leaves-keys [] = refl
  leaves-keys (k ∷ ks) = ap (◌∷◌ k) (leaves-keys ks)

  -- Build ends with a root for any keys but none, whose hashes are right and whose leaves are the
  -- keys.
  pub build-root :
      (le : String → String → Bool) (key : String) (keys : List String)
      → (n : Node Hash) × ((build leaf_hash pair_hash le (key ∷ keys)).root ≡ some n)
        × IsHashed n
        × ((k : String)
            → contains string_discrete (collect_keys n) k ≡ contains string_discrete (key ∷ keys) k)
  unfolding build
  build-root le key keys =
      let sorted = sort_by le (key ∷ keys) in
      let leaves = map (make_leaf leaf_hash pair_hash) sorted in
      let size : length leaves ≡ suc (length keys) =
        length-map (make_leaf leaf_hash pair_hash) sorted ∙ length-sort_by le (key ∷ keys) in
      let (n, e, hashed, same) =
        build_level-root (length leaves) leaves (omega arith) (omega arith)
          (leaves-IsHashed sorted) in
      (
        n,
        e,
        hashed,
        λ k.
            same k
            ∙ ap (λ l. contains string_discrete l k) (leaves-keys sorted)
            ∙ contains-sort_by le string_discrete (key ∷ keys) k,
      )
