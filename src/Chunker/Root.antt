-- ===== src/Chunker/Root.antt =====
-- The root of a manifest (Storage/chunker/chunker.go).
use dfs_go.Common.{ℕ, zero, suc, ◌+◌, ◌≤◌, ◌<◌, ◌≡◌, refl, sym, ap, ◌∙◌, arith, true, ◌%◌}
use dfs_go.Common.{Option, some, List, [], ◌∷◌, ◌++◌, length, map, test}
use dfs_go.Common.{length-map, length-append, String, string_discrete}
use dfs_go.Chunker.{ChunkInfo, ChunkManifest, zero_hash, leaf, next_layer, root_loop}
use dfs_go.Chunker.{compute_merkle_root, build_manifest, verify_merkle_root}
use mathlib.Core.Option

module _ (sha256 : List ℕ → List ℕ) (bytes_of : String → List ℕ) (encode : List ℕ → String)
    (decode : String → Option (List ℕ)) where
  abbrev layer : List (List ℕ) → List (List ℕ)
  layer = next_layer sha256 bytes_of encode decode

  abbrev loop : ℕ → List (List ℕ) → Option (List ℕ)
  loop = root_loop sha256 bytes_of encode decode

  abbrev leaves : List ChunkInfo → List (List ℕ)
  leaves chunks = map (leaf sha256 bytes_of encode decode) chunks

  length-layer : (ns : List (List ℕ)) → length (layer ns) + length (layer ns) ≤ suc (length ns)
  unfolding next_layer
  length-layer [] = omega arith
  length-layer (a ∷ []) = omega arith
  length-layer (a ∷ b ∷ ns) = omega (arith, length-layer ns)

  loop_step :
      (fuel : ℕ) (ns : List (List ℕ)) → 2 ≤ length ns → loop (suc fuel) ns ≡ loop fuel (layer ns)
  unfolding root_loop
  loop_step fuel [] h = absurd (omega arith)
  loop_step fuel (a ∷ []) h = absurd (omega arith)
  loop_step fuel (a ∷ b ∷ ns) h = refl

  -- As many rounds as nodes are enough.
  loop_ends :
      (fuel : ℕ) (ns : List (List ℕ)) → length ns ≤ fuel → (r : List ℕ) × (loop fuel ns ≡ some r)
  unfolding root_loop
  loop_ends fuel [] h = (zero_hash, refl)
  loop_ends fuel (a ∷ []) h = (a, refl)
  loop_ends zero (a ∷ b ∷ ns) h = absurd (omega arith)
  loop_ends (suc fuel) (a ∷ b ∷ ns) h =
      loop_ends fuel (layer (a ∷ b ∷ ns)) (omega (arith, length-layer (a ∷ b ∷ ns)))

  -- More make no difference.
  loop_more :
      (fuel more : ℕ) (ns : List (List ℕ))
      → length ns ≤ fuel
      → length ns ≤ more
      → loop fuel ns ≡ loop more ns
  unfolding root_loop
  loop_more fuel more [] h k = refl
  loop_more fuel more (a ∷ []) h k = refl
  loop_more zero more (a ∷ b ∷ ns) h k = absurd (omega arith)
  loop_more (suc fuel) zero (a ∷ b ∷ ns) h k = absurd (omega arith)
  loop_more (suc fuel) (suc more) (a ∷ b ∷ ns) h k =
      loop_more fuel more (layer (a ∷ b ∷ ns)) (omega (arith, length-layer (a ∷ b ∷ ns)))
        (omega (arith, length-layer (a ∷ b ∷ ns)))

  -- After an even number of nodes it makes no difference whether the last one is repeated.
  layer_repeat :
      (front : List (List ℕ)) (x : List ℕ)
      → length front % 2 ≡ 0
      → layer (front ++ (x ∷ x ∷ [])) ≡ layer (front ++ (x ∷ []))
  unfolding next_layer
  layer_repeat [] x even = refl
  layer_repeat (a ∷ []) x even = absurd (omega arith)
  layer_repeat (a ∷ b ∷ front) x even =
      ap (◌∷◌ (sha256 (a ++ b))) (layer_repeat front x (omega arith))

  loop_repeat :
      (front : List (List ℕ)) (x : List ℕ)
      → length front % 2 ≡ 0
      → 0 < length front
      → loop (length (front ++ (x ∷ x ∷ []))) (front ++ (x ∷ x ∷ []))
        ≡ loop (length (front ++ (x ∷ []))) (front ++ (x ∷ []))
  loop_repeat front x even some_front =
      loop_more (length twice) (suc rounds) twice (omega arith) few_twice
      ∙ loop_step rounds twice (omega (arith, length-append front (x ∷ x ∷ [])))
      ∙ ap (loop rounds) (layer_repeat front x even)
      ∙ sym (loop_step rounds once (omega (arith, length-append front (x ∷ []))))
      ∙ loop_more (suc rounds) (length once) once few_once (omega arith)
    where
      twice : List (List ℕ)
      twice = front ++ (x ∷ x ∷ [])

      once : List (List ℕ)
      once = front ++ (x ∷ [])

      rounds : ℕ
      rounds = length front + 1

      few_twice : length twice ≤ suc rounds
      few_twice = omega (arith, length-append front (x ∷ x ∷ []))

      few_once : length once ≤ suc rounds
      few_once = omega (arith, length-append front (x ∷ []))

  compute_ends :
      (chunks : List ChunkInfo)
      → (root : String) × (compute_merkle_root sha256 bytes_of encode decode chunks ≡ some root)
  unfolding compute_merkle_root
  compute_ends [] = (encode zero_hash, refl)
  compute_ends (c ∷ cs) =
      let (r, e) =
        loop_ends (length (c ∷ cs)) (leaves (c ∷ cs))
          (omega (arith, length-map (leaf sha256 bytes_of encode decode) (c ∷ cs))) in
      (encode r, ap (Option.map encode) e)

  compute_loop :
      (chunks : List ChunkInfo)
      → 0 < length chunks
      → compute_merkle_root sha256 bytes_of encode decode chunks
        ≡ Option.map encode (loop (length (leaves chunks)) (leaves chunks))
  unfolding compute_merkle_root
  compute_loop [] h = absurd (omega arith)
  compute_loop (c ∷ cs) h =
      ap (λ n. Option.map encode (loop n (leaves (c ∷ cs))))
        (sym (length-map (leaf sha256 bytes_of encode decode) (c ∷ cs)))

  leaves-append : (xs ys : List ChunkInfo) → leaves (xs ++ ys) ≡ leaves xs ++ leaves ys
  leaves-append [] ys = refl
  leaves-append (x ∷ xs) ys = ap (◌∷◌ (leaf sha256 bytes_of encode decode x)) (leaves-append xs ys)

  compute_repeat :
      (front : List ChunkInfo) (x : ChunkInfo)
      → length front % 2 ≡ 0
      → 0 < length front
      → compute_merkle_root sha256 bytes_of encode decode (front ++ (x ∷ x ∷ []))
        ≡ compute_merkle_root sha256 bytes_of encode decode (front ++ (x ∷ []))
  compute_repeat front x even some_front =
      compute_loop (front ++ (x ∷ x ∷ [])) (omega (arith, length-append front (x ∷ x ∷ [])))
      ∙ ap (λ ns. Option.map encode (loop (length ns) ns)) (leaves-append front (x ∷ x ∷ []))
      ∙ ap (Option.map encode) (loop_repeat (leaves front) y even_leaves some_leaves)
      ∙ ap (λ ns. Option.map encode (loop (length ns) ns)) (sym (leaves-append front (x ∷ [])))
      ∙ sym (compute_loop (front ++ (x ∷ [])) (omega (arith, length-append front (x ∷ []))))
    where
      y : List ℕ
      y = leaf sha256 bytes_of encode decode x

      even_leaves : length (leaves front) % 2 ≡ 0
      even_leaves = rw (length-map (leaf sha256 bytes_of encode decode) front) even

      some_leaves : 0 < length (leaves front)
      some_leaves = rw (length-map (leaf sha256 bytes_of encode decode) front) some_front

  -- A manifest is built of any chunks, and its root is the one that the check of these chunks
  -- accepts.
  pub verify_merkle_root-build_manifest :
      (file_key : String) (chunks : List ChunkInfo) (created_at : ℕ)
      → (m : ChunkManifest) × (build_manifest sha256 bytes_of encode decode file_key chunks
            created_at
          ≡ some m)
        × (m.chunks ≡ chunks)
        × (verify_merkle_root sha256 bytes_of encode decode chunks m.merkle_root ≡ some true)
  unfolding build_manifest verify_merkle_root
  verify_merkle_root-build_manifest file_key chunks created_at =
      let (root, e) = compute_ends chunks in
      (
        _,
        ap (Option.map _) e,
        refl,
        ap (Option.map (λ r. test (string_discrete r root))) e ∙ ap some (same root),
      )
    where
      same : (r : String) → test (string_discrete r r) ≡ true
      same r = ground arith

  -- The check cannot tell a file of an odd number of chunks, three at least, from the same chunks
  -- with the last one repeated: for every expected root it answers the same.
  pub verify_merkle_root_repeat :
      (front : List ChunkInfo) (x : ChunkInfo) (expected : String)
      → length front % 2 ≡ 0
      → 0 < length front
      → verify_merkle_root sha256 bytes_of encode decode (front ++ (x ∷ x ∷ [])) expected
        ≡ verify_merkle_root sha256 bytes_of encode decode (front ++ (x ∷ [])) expected
  unfolding verify_merkle_root
  verify_merkle_root_repeat front x expected even some_front =
      ap (Option.map (λ r. test (string_discrete r expected)))
        (compute_repeat front x even some_front)
