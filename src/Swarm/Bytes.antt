-- ===== src/Swarm/Bytes.antt =====
-- The eight bits of a byte (Storage/swarm/swarm.go), settled by running the byte operations on all
-- bytes.
use dfs_go.Common.{ℕ, zero, suc, ◌+◌, ◌-◌, ◌^◌, ◌<◌, ◌≡◌, refl, arith, Bool, true, false}
use dfs_go.Common.{ltb, ◌==◌, if◌then◌else◌, not, ◌&&◌, ℕ_discrete}
use dfs_go.Swarm.{with_bit, without_bit, bit, popcount, popcount_loop}

-- every number below `n` passes
all_below : ℕ → (ℕ → Bool) → Bool
all_below zero p = true
all_below (suc n) p = p n && all_below n p

both : (a b : Bool) → (a && b) ≡ true → (a ≡ true) × (b ≡ true)
both true b h = (refl, h)
both false b h = absurd cc

below : (n : ℕ) (p : ℕ → Bool) → all_below n p ≡ true → (b : ℕ) → b < n → p b ≡ true
unfolding all_below
below zero p h b lt = absurd (omega arith)
below (suc n) p h b lt =
    let (at, rest) = both (p n) (all_below n p) h in
    elim (ℕ_discrete b n) [ yes e ↦ rw e at | no ne ↦ below n p rest b (omega arith) ]

same : Bool → Bool → Bool
same true b = b
same false b = not b

same_lem : (a b : Bool) → same a b ≡ true → a ≡ b
unfolding same
same_lem true true h = refl
same_lem true false h = absurd cc
same_lem false true h = absurd cc
same_lem false false h = refl

-- the numbers of bits set among the lowest `n`
unfoldable pub count_true : ℕ → (ℕ → Bool) → ℕ
count_true zero p = 0
count_true (suc n) p = count_true n p + (if p n then 1 else 0)

bits_checked :
    all_below 256 (λ b. all_below 8 (λ k. all_below 8 (λ j.
      same (bit j (with_bit k b)) (if k == j then true else bit j b)
      && same (bit j (without_bit k b)) (if k == j then false else bit j b))))
    ≡ true
unfolding all_below same bit with_bit without_bit
bits_checked = refl

popcount_checked : all_below 256 (λ b. popcount b == count_true 8 (λ k. bit k b)) ≡ true
unfolding all_below popcount popcount_loop bit count_true
popcount_checked = refl

-- the two operations on bit `k`, seen at bit `j`
updates_agree : ℕ → ℕ → ℕ → Bool
updates_agree b k j =
    same (bit j (with_bit k b)) (if k == j then true else bit j b)
    && same (bit j (without_bit k b)) (if k == j then false else bit j b)

module _ (b k j : ℕ) (byte : b < 256) (hk : k < 8) (hj : j < 8) where
  agree : updates_agree b k j ≡ true
  agree =
      below 8 (λ j. updates_agree b k j)
        (below 8 (λ k. all_below 8 (λ j. updates_agree b k j))
          (below 256 (λ b. all_below 8 (λ k. all_below 8 (λ j. updates_agree b k j)))
            (unfold updates_agree in bits_checked) b byte)
          k hk)
        j hj

  pub bit-with_bit : bit j (with_bit k b) ≡ (if k == j then true else bit j b)
  unfolding updates_agree
  bit-with_bit = same_lem _ _ (both _ _ agree).0

  pub bit-without_bit : bit j (without_bit k b) ≡ (if k == j then false else bit j b)
  unfolding updates_agree
  bit-without_bit = same_lem _ _ (both _ _ agree).1

-- The loop of `popcount` counts the bits that are set.
pub popcount_lem : (b : ℕ) → b < 256 → popcount b ≡ count_true 8 (λ k. bit k b)
popcount_lem b byte =
    ground
      (arith, below 256 (λ b. popcount b == count_true 8 (λ k. bit k b)) popcount_checked b byte)

-- A byte stays a byte.
stays : ℕ → ℕ → Bool
stays b k = ltb (with_bit k b) 256 && ltb (without_bit k b) 256

stays_checked : all_below 256 (λ b. all_below 8 (λ k. stays b k)) ≡ true
unfolding all_below with_bit without_bit stays
stays_checked = refl

pub with_bit-lt : (b k : ℕ) → b < 256 → k < 8 → (with_bit k b < 256) × (without_bit k b < 256)
with_bit-lt b k byte hk =
    let (h, h') = both (ltb (with_bit k b) 256) (ltb (without_bit k b) 256) (
      unfold stays in
      below 8 (λ k. stays b k) (below 256 (λ b. all_below 8 (λ k. stays b k)) stays_checked b byte)
        k hk) in
    (ground (arith, h), ground (arith, h'))

-- the last byte of a full field has the lowest `r` bits
lowest : ℕ → Bool
lowest r = all_below 8 (λ k. same (bit k (2 ^ r - 1)) (ltb k r))

full_checked : all_below 9 (λ r. ltb (2 ^ r - 1) 256 && lowest r) ≡ true
unfolding all_below bit same lowest
full_checked = refl

full : (r : ℕ) → r < 9 → (ltb (2 ^ r - 1) 256 ≡ true) × (lowest r ≡ true)
full r hr =
    both (ltb (2 ^ r - 1) 256) (lowest r)
      (below 9 (λ r. ltb (2 ^ r - 1) 256 && lowest r) full_checked r hr)

pub bit_low : (r k : ℕ) → r < 9 → k < 8 → bit k (2 ^ r - 1) ≡ ltb k r
unfolding lowest
bit_low r k hr hk =
    same_lem (bit k (2 ^ r - 1)) (ltb k r)
      (below 8 (λ k. same (bit k (2 ^ r - 1)) (ltb k r)) (full r hr).1 k hk)

pub low-lt : (r : ℕ) → r < 9 → 2 ^ r - 1 < 256
low-lt r hr = ground (arith, (full r hr).0)
