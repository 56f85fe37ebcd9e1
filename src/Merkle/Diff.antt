-- ===== src/Merkle/Diff.antt =====
-- What `Diff` finds: every key of one tree that the other lacks, each once.
use dfs_go.Common.{
  ◌≡◌, refl, ◌∙◌, sym, String, List, [], ◌∷◌, ◌++◌, true, contains, contains-append,
  string_discrete, arith, ap, IsDistinct, IsDistinct-snoc, ◌⊎◌, inl, inr, Bool-cases,
}
use mathlib.Core.Bool.{Bool-discrete}
use dfs_go.Merkle.{Node, leaf, inner, hash_of, collect_keys, dedupe, diff_nodes}
use dfs_go.Merkle.Collision.{collision_free, free-both, same_keys}

-- the keys that the loop has kept and those that it still has to read
pub contains-dedupe :
    (out raw : List String) (k : String)
    → contains string_discrete (dedupe out raw) k ≡ contains string_discrete (out ++ raw) k
unfolding dedupe contains
contains-dedupe out [] k = ground (arith, contains-append string_discrete out [] k)
contains-dedupe out (r ∷ raw) k = ground (
  arith,
  contains-dedupe out raw k,
  contains-dedupe (out ++ r ∷ []) raw k,
  contains-append string_discrete (out ++ r ∷ []) raw k,
  contains-append string_discrete out (r ∷ []) k,
  contains-append string_discrete out (r ∷ raw) k,
  contains-append string_discrete out raw k,
  ap (contains string_discrete out) {x = k} {y = r},
)

pub dedupe-IsDistinct :
    (out raw : List String)
    → IsDistinct string_discrete out
    → IsDistinct string_discrete (dedupe out raw)
unfolding dedupe
dedupe-IsDistinct out [] d = d
dedupe-IsDistinct out (r ∷ raw) d = elim (Bool-cases (contains string_discrete out r)) [
  | inl e ↦ rw e (dedupe-IsDistinct out raw d)
  | inr e ↦ rw e (dedupe-IsDistinct (out ++ r ∷ []) raw (IsDistinct-snoc string_discrete out r d e))
]

module _ {Hash : Type 0} (dec : Discrete Hash) (zero_hash : Hash) where
  -- a key of just one of the subtrees
  abbrev pub Differs : List String → List String → String → Type 0
  Differs ks js k = ¬ (contains string_discrete ks k ≡ contains string_discrete js k)

  either :
      (ws bs : List String) (k : String)
      → Differs ws bs k
      → contains string_discrete (ws ++ bs) k ≡ true
  either ws bs k d = ground (arith, d, contains-append string_discrete ws bs k)

  apart_leaf :
      (h g : Hash) (j : String) (l r : Node Hash)
      → ¬ (h ≡ g)
      → diff_nodes dec zero_hash (leaf h j) (inner g l r) ≡ j ∷ collect_keys (inner g l r)
  unfolding diff_nodes
  apart_leaf h g j l r e = ground arith

  leaf_apart :
      (h g : Hash) (k : String) (l r : Node Hash)
      → ¬ (h ≡ g)
      → diff_nodes dec zero_hash (inner h l r) (leaf g k) ≡ collect_keys (inner h l r) ++ k ∷ []
  unfolding diff_nodes
  leaf_apart h g k l r e = ground arith

  apart_inner :
      (h g : Hash) (l r l' r' : Node Hash)
      → ¬ (h ≡ g)
      → diff_nodes dec zero_hash (inner h l r) (inner g l' r')
        ≡ diff_nodes dec zero_hash l l' ++ diff_nodes dec zero_hash r r'
  unfolding diff_nodes
  apart_inner h g l r l' r' e = ground arith

  Differs-append :
      (ws bs cs ds : List String) (k : String)
      → Differs (ws ++ bs) (cs ++ ds) k
      → Differs ws cs k ⊎ Differs bs ds k
  Differs-append ws bs cs ds k d =
      elim (Bool-discrete (contains string_discrete ws k) (contains string_discrete cs k)) [
        | no e ↦ inl e
        | yes e ↦ inr (λ f. d (
            contains-append string_discrete ws bs k
            ∙ rw (e, f) refl
            ∙ sym (contains-append string_discrete cs ds k)))
      ]

  contains_left :
      (ws bs : List String) (k : String)
      → contains string_discrete ws k ≡ true
      → contains string_discrete (ws ++ bs) k ≡ true
  contains_left ws bs k c = contains-append string_discrete ws bs k ∙ rw c refl

  contains_right :
      (ws bs : List String) (k : String)
      → contains string_discrete bs k ≡ true
      → contains string_discrete (ws ++ bs) k ≡ true
  contains_right ws bs k c = ground (arith, contains-append string_discrete ws bs k)

  pub diff_nodes_complete :
      (a b : Node Hash) (k : String)
      → collision_free dec a b ≡ true
      → Differs (collect_keys a) (collect_keys b) k
      → contains string_discrete (diff_nodes dec zero_hash a b) k ≡ true
  unfolding diff_nodes collect_keys contains hash_of
  diff_nodes_complete (leaf h j) (leaf g i) k f d = elim (dec h g) [
    | yes e ↦
        absurd
          (d (ap (λ l. contains string_discrete l k) (same_keys dec (leaf h j) (leaf g i) f e)))
    | no e ↦ ground (arith, d)
  ]
  diff_nodes_complete (leaf h j) (inner g l r) k f d = elim (dec h g) [
    | yes e ↦
        absurd
          (d (ap (λ q. contains string_discrete q k) (same_keys dec (leaf h j) (inner g l r) f e)))
    | no e ↦
        ap (λ q. contains string_discrete q k) (apart_leaf h g j l r e)
        ∙ either (j ∷ []) (collect_keys (inner g l r)) k d
  ]
  diff_nodes_complete (inner h l r) (leaf g i) k f d = elim (dec h g) [
    | yes e ↦
        absurd
          (d (ap (λ q. contains string_discrete q k) (same_keys dec (inner h l r) (leaf g i) f e)))
    | no e ↦
        ap (λ q. contains string_discrete q k) (leaf_apart h g i l r e)
        ∙ either (collect_keys (inner h l r)) (i ∷ []) k d
  ]
  diff_nodes_complete (inner h l r) (inner g l' r') k f d = elim (dec h g) [
    | yes e ↦ absurd (
        d (
          ap (λ q. contains string_discrete q k) (same_keys dec (inner h l r) (inner g l' r') f e)))
    | no e ↦
        ap (λ q. contains string_discrete q k) (apart_inner h g l r l' r' e)
        ∙ elim (Differs-append (collect_keys l) (collect_keys r) (collect_keys l') (collect_keys r')
            k d) [
              | inl dl ↦
                  contains_left _ (diff_nodes dec zero_hash r r') k
                    (diff_nodes_complete l l' k (free-both dec h g l r l' r' f).0 dl)
              | inr dr ↦
                  contains_right (diff_nodes dec zero_hash l l') _ k
                    (diff_nodes_complete r r' k (free-both dec h g l r l' r' f).1 dr)
            ]
  ]
