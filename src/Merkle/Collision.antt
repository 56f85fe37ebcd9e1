-- ===== src/Merkle/Collision.antt =====
-- Collisions of SHA-256 between the nodes of two trees (Cluster/merkle/merkle.go).
use dfs_go.Common.{
  ◌≡◌, refl, [], ◌∷◌, ◌++◌, true, string_discrete, ap, Bool, Option, none, some, test,
  if◌then◌else◌, ◌&&◌, not, false,
}
use mathlib.Core.Path.{ap₂}
use dfs_go.Merkle.{Node, leaf, inner, hash_of, collect_keys}

of_test : {A : Type 0} → (d : Dec A) → test d ≡ true → A
of_test (yes a) e = a
of_test (no n) e = absurd cc

module _ {Hash : Type 0} (dec : Discrete Hash) where
  -- Nodes of one hash come of one input: the same key, or the same two hashes below.
  abbrev pub same_input : Node Hash → Node Hash → Bool
  same_input (leaf h j) (leaf g k) = test (string_discrete j k)
  same_input (leaf h j) (inner g l r) = false
  same_input (inner h l r) (leaf g k) = false
  same_input (inner h l r) (inner g l' r') =
      test (dec (hash_of l) (hash_of l')) && test (dec (hash_of r) (hash_of r'))

  abbrev pub no_collision : Node Hash → Node Hash → Bool
  no_collision a b = if test (dec (hash_of a) (hash_of b)) then same_input a b else true

  -- the node collides with none of the tree's
  abbrev pub free_of : Node Hash → Node Hash → Bool
  free_of a (leaf g k) = no_collision a (leaf g k)
  free_of a (inner g l r) = no_collision a (inner g l r) && (free_of a l && free_of a r)

  -- No node of the one tree collides with a node of the other.
  abbrev pub collision_free : Node Hash → Node Hash → Bool
  collision_free (leaf h j) b = free_of (leaf h j) b
  collision_free (inner h l r) b =
      free_of (inner h l r) b && (collision_free l b && collision_free r b)

  -- The same of two roots, where the hash of a root is not the zero array of an empty tree either.
  abbrev pub roots_free : Hash → Option (Node Hash) → Option (Node Hash) → Bool
  roots_free zero_hash none none = true
  roots_free zero_hash none (some b) = not (test (dec (hash_of b) zero_hash))
  roots_free zero_hash (some a) none = not (test (dec (hash_of a) zero_hash))
  roots_free zero_hash (some a) (some b) = collision_free a b

  and_left : (x y : Bool) → x && y ≡ true → x ≡ true
  and_left true y e = refl
  and_left false y e = e

  and_right : (x y : Bool) → x && y ≡ true → y ≡ true
  and_right true y e = e
  and_right false y e = absurd cc

  free_of-head : (a b : Node Hash) → free_of a b ≡ true → no_collision a b ≡ true
  free_of-head a (leaf g k) f = f
  free_of-head a (inner g l r) f = and_left (no_collision a (inner g l r)) _ f

  free-head : (a b : Node Hash) → collision_free a b ≡ true → no_collision a b ≡ true
  free-head (leaf h j) b f = free_of-head (leaf h j) b f
  free-head (inner h l r) b f =
      free_of-head (inner h l r) b (and_left (free_of (inner h l r) b) _ f)

  free_of-below :
      (a : Node Hash) (g : Hash) (l r : Node Hash)
      → free_of a (inner g l r) ≡ true
      → (free_of a l ≡ true) × (free_of a r ≡ true)
  free_of-below a g l r f =
      let rest = and_right (no_collision a (inner g l r)) (free_of a l && free_of a r) f in
      (and_left (free_of a l) (free_of a r) rest, and_right (free_of a l) (free_of a r) rest)

  -- what is below the node of the one tree
  free-left :
      (h : Hash) (l r b : Node Hash)
      → collision_free (inner h l r) b ≡ true
      → (collision_free l b ≡ true) × (collision_free r b ≡ true)
  free-left h l r b f =
      let rest = and_right (free_of (inner h l r) b) (collision_free l b && collision_free r b) f in
      (
        and_left (collision_free l b) (collision_free r b) rest,
        and_right (collision_free l b) (collision_free r b) rest,
      )

  -- what is below the node of the other tree
  free-right :
      (a : Node Hash) (g : Hash) (l r : Node Hash)
      → collision_free a (inner g l r) ≡ true
      → (collision_free a l ≡ true) × (collision_free a r ≡ true)
  free-right (leaf h j) g l r f = free_of-below (leaf h j) g l r f
  free-right (inner h x y) g l r f =
      let top =
        free_of-below (inner h x y) g l r (and_left (free_of (inner h x y) (inner g l r)) _ f) in
      let bottom = free-left h x y (inner g l r) f in
      let (xl, xr) = free-right x g l r bottom.0 in
      let (yl, yr) = free-right y g l r bottom.1 in
      (rw (top.0, xl, yl) refl, rw (top.1, xr, yr) refl)

  free-input :
      (a b : Node Hash) → collision_free a b ≡ true → hash_of a ≡ hash_of b → same_input a b ≡ true
  free-input a b f e =
      elim (dec (hash_of a) (hash_of b))
          as (λ d. (if test d then same_input a b else true) ≡ true → same_input a b ≡ true) [
            | yes same ↦ λ g. g
            | no ne ↦ absurd (ne e)
          ]
        (free-head a b f)

  -- what is below both nodes
  pub free-both :
      (h g : Hash) (l r l' r' : Node Hash)
      → collision_free (inner h l r) (inner g l' r') ≡ true
      → (collision_free l l' ≡ true) × (collision_free r r' ≡ true)
  free-both h g l r l' r' f =
      let (fl, fr) = free-left h l r (inner g l' r') f in
      ((free-right l g l' r' fl).0, (free-right r g l' r' fr).1)

  -- subtrees with one hash hold the same keys in the same order
  pub same_keys :
      (a b : Node Hash)
      → collision_free a b ≡ true
      → hash_of a ≡ hash_of b
      → collect_keys a ≡ collect_keys b
  unfolding collect_keys hash_of
  same_keys (leaf h j) (leaf g k) f e =
      ap (λ x. x ∷ []) (of_test (string_discrete j k) (free-input (leaf h j) (leaf g k) f e))
  same_keys (leaf h j) (inner g l r) f e =
      let clash = free-input (leaf h j) (inner g l r) f e in absurd cc
  same_keys (inner h l r) (leaf g k) f e =
      let clash = free-input (inner h l r) (leaf g k) f e in absurd cc
  same_keys (inner h l r) (inner g l' r') f e =
      let below = free-both h g l r l' r' f in
      let same = free-input (inner h l r) (inner g l' r') f e in
      ap₂ (λ x y. x ++ y)
        (same_keys l l' below.0 (
          of_test (dec (hash_of l) (hash_of l'))
            (and_left (test (dec (hash_of l) (hash_of l'))) _ same)))
        (same_keys r r' below.1 (
          of_test (dec (hash_of r) (hash_of r'))
            (and_right (test (dec (hash_of l) (hash_of l'))) _ same)))
