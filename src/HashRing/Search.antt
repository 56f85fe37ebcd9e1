-- ===== src/HashRing/Search.antt =====
-- `search` (a binary search by `sort.Search`) finds the first ring position at or past a hash.
use dfs_go.Common.{
  ℕ, zero, suc, ◌+◌, ◌/◌, ◌≤◌, ◌<◌, ◌≡◌, refl, List, [], ◌∷◌, true, leb, ltb, length, get_or, arith,
  tests, ltb→lt, ltb→le, leb→le, leb→lt, All, Bool-cases, inl, inr, ◌⊎◌,
}
use dfs_go.Common.Sort.{IsSortedBy}
use dfs_go.HashRing.{HashRing, search_loop, search}

-- the position at an index of the ring
abbrev pub position : List ℕ → ℕ → ℕ
position hashes i = get_or hashes i 0

All-position :
    (x : ℕ) (xs : List ℕ) (j : ℕ) → All (λ y. leb x y ≡ true) xs → j < length xs → x ≤ position xs j
All-position x [] j h lt = absurd (omega arith)
All-position x (y ∷ ys) zero h lt = ground (arith, h.0)
All-position x (y ∷ ys) (suc j) h lt = All-position x ys j h.1 (omega arith)

pub sorted_positions :
    (xs : List ℕ) (i j : ℕ)
    → IsSortedBy leb xs
    → i ≤ j
    → j < length xs
    → position xs i ≤ position xs j
sorted_positions [] i j h le lt = absurd (omega arith)
sorted_positions (x ∷ xs) zero zero h le lt = omega arith
sorted_positions (x ∷ xs) zero (suc j) h le lt = All-position x xs j h.0 (omega arith)
sorted_positions (x ∷ xs) (suc i) zero h le lt = absurd (omega arith)
sorted_positions (x ∷ xs) (suc i) (suc j) h le lt =
    sorted_positions xs i j h.1 (omega arith) (omega arith)

-- An index that splits the positions into those below the hash and those at or past it.
pub record Splits (hashes : List ℕ) (hash r : ℕ) : Type 0 where
  pub below : (k : ℕ) → k < r → position hashes k < hash
  pub past : (k : ℕ) → r ≤ k → k < length hashes → hash ≤ position hashes k

search_loop-Splits :
    (fuel : ℕ) (hashes : List ℕ) (hash i j : ℕ)
    → IsSortedBy leb hashes
    → i ≤ j
    → j ≤ length hashes
    → j < fuel + i
    → ((k : ℕ) → k < i → position hashes k < hash)
    → ((k : ℕ) → j ≤ k → k < length hashes → hash ≤ position hashes k)
    → Splits hashes hash (search_loop fuel hashes hash i j) × (search_loop fuel hashes hash i j ≤ j)
unfolding search_loop
search_loop-Splits zero hashes hash i j sorted le bound f lo hi = absurd (omega arith)
search_loop-Splits (suc fuel) hashes hash i j sorted le bound f lo hi =
    elim (Bool-cases (ltb i j)) [
      | inr done ↦
          rw done
            (record { below = lo; past = λ k p q. hi k (omega (tests, ltb→le i j done, p)) q }, le)
      | inl more ↦
          let mid = (i + j) / 2 in
          let mid_lt : mid < j = omega (tests, ltb→lt i j more) in
          let le_mid : i ≤ mid = omega (tests, ltb→lt i j more) in
          elim (Bool-cases (leb hash (position hashes mid))) [
            | inl high ↦
                let (split, near) =
                  search_loop-Splits fuel hashes hash i mid sorted le_mid (omega arith)
                    (omega arith) lo
                    (λ k p q. omega (
                      tests,
                      leb→le hash (position hashes mid) high,
                      sorted_positions hashes mid k sorted p q,
                    )) in
                rw (more, high) (split, omega (arith, near))
            | inr low ↦
                rw (more, low)
                  (search_loop-Splits fuel hashes hash (mid + 1) j sorted (omega arith) bound
                    (omega arith)
                    (λ k p. omega (
                      tests,
                      leb→lt hash (position hashes mid) low,
                      sorted_positions hashes k mid sorted (omega arith) (omega arith),
                    ))
                    hi)
          ]
    ]

-- The binary search of `sort.Search` on the sorted ring ends with the first position at or past
-- the hash, or with the length of the ring where there is none.
pub search_total :
    (hashes : List ℕ) (hash : ℕ)
    → IsSortedBy leb hashes
    → Splits hashes hash (search_loop (length hashes + 1) hashes hash 0 (length hashes))
      × (search_loop (length hashes + 1) hashes hash 0 (length hashes) ≤ length hashes)
search_total hashes hash sorted =
    search_loop-Splits (length hashes + 1) hashes hash 0 (length hashes) sorted (omega arith)
      (omega arith) (omega arith) (λ k p. absurd (omega arith)) (λ k p q. absurd (omega arith))

-- What `search` returns: the first position at or past the hash, or 0 where every position lies
-- below it.
abbrev pub Clockwise : HashRing → ℕ → ℕ → Type 0
Clockwise hr hash r =
    ((r < length hr.sorted_hashes) × Splits hr.sorted_hashes hash r)
    ⊎ ((r ≡ 0) × ((k : ℕ) → k < length hr.sorted_hashes → position hr.sorted_hashes k < hash))

-- On a sorted ring `search` goes clockwise from the hash: to the first position at or past it,
-- and round to index 0 past the last.
pub search-Clockwise :
    (hr : HashRing) (hash : ℕ)
    → IsSortedBy leb hr.sorted_hashes
    → Clockwise hr hash (search hr hash)
unfolding search
search-Clockwise hr hash sorted =
    let n = length hr.sorted_hashes in
    let idx = search_loop (n + 1) hr.sorted_hashes hash 0 n in
    let (split, le) = search_total hr.sorted_hashes hash sorted in
    elim (Bool-cases (leb n idx)) [
      | inl off ↦ rw off (inr (refl, λ k p. split.below k (omega (tests, leb→le n idx off))))
      | inr on ↦ rw on (inl (leb→lt n idx on, split))
    ]

pub search-lt :
    (hr : HashRing) (hash : ℕ)
    → 0 < length hr.sorted_hashes
    → search hr hash < length hr.sorted_hashes
unfolding search
search-lt hr hash some = ground arith
