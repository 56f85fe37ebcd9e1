-- ===== src/HashRing/Walk.antt =====
-- The loop of `GetNodes`: it gathers distinct owners, at most `n`, and stops early only when it
-- has that many.
use dfs_go.Common.{
  ℕ, zero, suc, ◌+◌, ◌%◌, ◌≤◌, ◌<◌, ◌≡◌, refl, String, List, [], ◌∷◌, ◌++◌, true, ltb,
  if◌then◌else◌, length, contains, contains-append, string_discrete, arith, tests, All, All-append,
  IsDistinct, IsDistinct-snoc, Bool-cases, inl, inr, ◌⊎◌, length-append, ltb→lt, ltb→le, ℕ_discrete,
}
use dfs_go.HashRing.{HashRing, owner, walk}
use dfs_go.HashRing.Search.{position}

module _ (hr : HashRing) (n start : ℕ) where
  -- the owner of the position that the loop visits in round `i`
  abbrev pub visited : ℕ → String
  visited i = owner hr (position hr.sorted_hashes ((start + i) % length hr.sorted_hashes))

  abbrev put : String → List String → List String
  put addr nodes = if contains string_discrete nodes addr then nodes else nodes ++ addr ∷ []

  put-IsDistinct :
      (addr : String) (nodes : List String)
      → IsDistinct string_discrete nodes
      → IsDistinct string_discrete (put addr nodes)
  put-IsDistinct addr nodes d = elim (Bool-cases (contains string_discrete nodes addr)) [
    | inl e ↦ rw e d
    | inr e ↦ rw e (IsDistinct-snoc string_discrete nodes addr d e)
  ]

  contains-put :
      (addr a : String) (nodes : List String)
      → contains string_discrete nodes a ≡ true
      → contains string_discrete (put addr nodes) a ≡ true
  contains-put addr a nodes c = ground (arith, contains-append string_discrete nodes (addr ∷ []) a)

  contains-put_self :
      (addr : String) (nodes : List String) → contains string_discrete (put addr nodes) addr ≡ true
  unfolding contains
  contains-put_self addr nodes =
      ground (arith, contains-append string_discrete nodes (addr ∷ []) addr)

  pub walk-IsDistinct :
      (rounds i : ℕ) (nodes : List String)
      → IsDistinct string_discrete nodes
      → IsDistinct string_discrete (walk hr n start rounds i nodes)
  unfolding walk
  walk-IsDistinct zero i nodes d = d
  walk-IsDistinct (suc rounds) i nodes d = elim (Bool-cases (ltb (length nodes) n)) [
    | inl more ↦ rw more (
        walk-IsDistinct rounds (i + 1) (put (visited i) nodes) (put-IsDistinct (visited i) nodes d))
    | inr full ↦ rw full d
  ]

  length-put : (addr : String) (nodes : List String) → length (put addr nodes) ≤ length nodes + 1
  length-put addr nodes = ground (arith, length-append nodes (addr ∷ []))

  pub length-walk-le :
      (rounds i : ℕ) (nodes : List String)
      → length nodes ≤ n
      → length (walk hr n start rounds i nodes) ≤ n
  unfolding walk
  length-walk-le zero i nodes h = h
  length-walk-le (suc rounds) i nodes h = elim (Bool-cases (ltb (length nodes) n)) [
    | inl more ↦ rw more (
        length-walk-le rounds (i + 1) (put (visited i) nodes)
          (omega (tests, ltb→lt (length nodes) n more, length-put (visited i) nodes)))
    | inr full ↦ rw full h
  ]

  -- every gathered node satisfies what the owners of the positions satisfy
  pub walk-All :
      (P : String → Type 0) (rounds i : ℕ) (nodes : List String)
      → ((k : ℕ) → P (visited k))
      → All P nodes
      → All P (walk hr n start rounds i nodes)
  unfolding walk
  walk-All P zero i nodes h a = a
  walk-All P (suc rounds) i nodes h a = elim (Bool-cases (ltb (length nodes) n)) [
    | inl more ↦ rw more (walk-All P rounds (i + 1) (put (visited i) nodes) h grow)
    | inr full ↦ rw full a
  ]
    where
      grow : All P (put (visited i) nodes)
      grow = elim (Bool-cases (contains string_discrete nodes (visited i))) [
        | inl e ↦ rw e a
        | inr e ↦ rw e (All-append P nodes (visited i ∷ []) a (h i, tt))
      ]

  contains-walk :
      (rounds i : ℕ) (nodes : List String) (a : String)
      → contains string_discrete nodes a ≡ true
      → contains string_discrete (walk hr n start rounds i nodes) a ≡ true
  unfolding walk
  contains-walk zero i nodes a c = c
  contains-walk (suc rounds) i nodes a c = elim (Bool-cases (ltb (length nodes) n)) [
    | inl more ↦ rw more (
        contains-walk rounds (i + 1) (put (visited i) nodes) a (contains-put (visited i) a nodes c))
    | inr full ↦ rw full c
  ]

  -- Either the loop has gathered `n` nodes, or it has visited every round.
  pub walk-covers :
      (rounds i : ℕ) (nodes : List String)
      → (n ≤ length (walk hr n start rounds i nodes))
        ⊎ ((k : ℕ)
            → i ≤ k
            → k < i + rounds
            → contains string_discrete (walk hr n start rounds i nodes) (visited k) ≡ true)
  unfolding walk
  walk-covers zero i nodes = inr (λ k p q. absurd (omega arith))
  walk-covers (suc rounds) i nodes = elim (Bool-cases (ltb (length nodes) n)) [
    | inr full ↦ rw full (inl (ltb→le (length nodes) n full))
    | inl more ↦ rw more (extend (walk-covers rounds (i + 1) (put (visited i) nodes)))
  ]
    where
      next : List String
      next = walk hr n start rounds (i + 1) (put (visited i) nodes)

      extend :
          ((n ≤ length next)
            ⊎ ((k : ℕ)
                → i + 1 ≤ k
                → k < i + 1 + rounds
                → contains string_discrete next (visited k) ≡ true))
          → (n ≤ length next)
            ⊎ ((k : ℕ)
                → i ≤ k
                → k < i + suc rounds
                → contains string_discrete next (visited k) ≡ true)
      extend (inl full) = inl full
      extend (inr seen) = inr (λ k p q. elim (ℕ_discrete i k) [
        | yes e ↦ rw (← e) (
            contains-walk rounds (i + 1) (put (visited i) nodes) (visited i)
              (contains-put_self (visited i) nodes))
        | no e ↦ seen k (omega arith) (omega arith)
      ])

  -- a full list stays as it is
  pub walk_full :
      (rounds i : ℕ) (nodes : List String)
      → n ≤ length nodes
      → walk hr n start rounds i nodes ≡ nodes
  unfolding walk
  walk_full zero i nodes h = refl
  walk_full (suc rounds) i nodes h = ground arith
