-- ===== src/Swarm/Counts.antt =====
-- CountBits and AllSet of Storage/swarm/swarm.go against the chunks that are there.
use dfs_go.Common.{ℕ, zero, suc, ◌+◌, ◌-◌, ◌*◌, ◌/◌, ◌%◌, ◌≤◌, ◌<◌, ◌≡◌, refl, ap, ◌∙◌, arith}
use dfs_go.Common.{Bool, true, false, List, [], ◌∷◌, if◌then◌else◌}
use dfs_go.Common.{◌↔◌, ℕ_discrete, length}
use dfs_go.Ipc.Words.{pos}
use dfs_go.Swarm.{bit, has_bit, count_bits, all_set}
use dfs_go.Swarm.Bytes.{popcount_lem, count_true}
use dfs_go.Swarm.Fields.{IsBytes}

count_true_ext :
    (n : ℕ) (p q : ℕ → Bool) → ((i : ℕ) → i < n → p i ≡ q i) → count_true n p ≡ count_true n q
unfolding count_true
count_true_ext zero p q h = refl
count_true_ext (suc n) p q h =
    rw (count_true_ext n p q (λ i lt. h i (omega arith)), h n (omega arith)) refl

count_true_step :
    (k n : ℕ) (p : ℕ → Bool) → k ≡ suc n → count_true k p ≡ count_true n p + (if p n then 1 else 0)
unfolding count_true
count_true_step k n p e = rw e refl

count_true_split :
    (n : ℕ) (p : ℕ → Bool) → count_true (n + 8) p ≡ count_true 8 p + count_true n (λ i. p (i + 8))
count_true_split zero p = unfold count_true in omega arith
count_true_split (suc n) p = omega (
  arith,
  count_true_step (suc n + 8) (n + 8) p (omega arith),
  count_true_step (suc n) n (λ i. p (i + 8)) refl,
  count_true_split n p,
)

count_true-le : (n : ℕ) (p : ℕ → Bool) → count_true n p ≤ n
unfolding count_true
count_true-le zero p = omega arith
count_true-le (suc n) p = ground (arith, count_true-le n p)

-- nothing is counted past `n` where nothing holds
count_true_tail :
    (d n : ℕ) (p : ℕ → Bool)
    → ((i : ℕ) → n ≤ i → p i ≡ false)
    → count_true (d + n) p ≡ count_true n p
count_true_tail zero n p h = ap (λ k. count_true k p) (omega arith)
count_true_tail (suc d) n p h = ground (
  arith,
  count_true_step (suc d + n) (d + n) p (omega arith),
  h (d + n) (omega arith),
  count_true_tail d n p h,
)

count_true_all : (n : ℕ) (p : ℕ → Bool) → ((i : ℕ) → i < n → p i ≡ true) → count_true n p ≡ n
unfolding count_true
count_true_all zero p h = refl
count_true_all (suc n) p h =
    ground (arith, count_true_all n p (λ i lt. h i (omega arith)), h n (omega arith))

all_of_count : (n : ℕ) (p : ℕ → Bool) → n ≤ count_true n p → (i : ℕ) → i < n → p i ≡ true
unfolding count_true
all_of_count zero p h i lt = absurd (omega arith)
all_of_count (suc n) p h i lt = elim (ℕ_discrete i n) [
  | yes e ↦ rw e (ground (arith, count_true-le n p, h))
  | no ne ↦ all_of_count n p (ground (arith, count_true-le n p, h)) i (omega arith)
]

has_bit_first : (b : ℕ) (bs : List ℕ) (i : ℕ) → i < 8 → has_bit (b ∷ bs) (pos i) ≡ bit i b
unfolding has_bit
has_bit_first b bs i lt = rw (q, r) (ground arith)
  where
    q : i / 8 ≡ 0
    q = omega arith

    r : i % 8 ≡ i
    r = omega arith

has_bit_rest : (b : ℕ) (bs : List ℕ) (i : ℕ) → has_bit (b ∷ bs) (pos (i + 8)) ≡ has_bit bs (pos i)
unfolding has_bit
has_bit_rest b bs i = rw (q, r) (ground arith)
  where
    q : (i + 8) / 8 ≡ suc (i / 8)
    q = omega arith

    r : (i + 8) % 8 ≡ i % 8
    r = omega arith

-- `CountBits` is the number of indexes at which `HasBit` is true.
pub count_bits_lem :
    (bf : List ℕ)
    → IsBytes bf
    → count_bits bf ≡ count_true (length bf * 8) (λ i. has_bit bf (pos i))
unfolding count_bits
count_bits_lem [] h = unfold count_true in refl
count_bits_lem (b ∷ bs) h = omega (
  arith,
  ap (λ k. count_true k there) size,
  count_true_split (length bs * 8) there,
  popcount_lem b h.0,
  count_true_ext 8 there (λ i. bit i b) (has_bit_first b bs),
  count_bits_lem bs h.1,
  count_true_ext (length bs * 8) (λ i. there (i + 8)) (λ i. has_bit bs (pos i))
      (λ i lt. has_bit_rest b bs i),
)
  where
    there : ℕ → Bool
    there i = has_bit (b ∷ bs) (pos i)

    size : suc (length bs) * 8 ≡ length bs * 8 + 8
    size = omega arith

-- A field of `n` chunks: its bytes, and nothing past the last chunk.
abbrev pub IsField : ℕ → List ℕ → Type 0
IsField n bf =
    (length bf ≡ (n + 7) / 8) × IsBytes bf × ((i : ℕ) → n ≤ i → has_bit bf (pos i) ≡ false)

count_bits-IsField :
    (n : ℕ) (bf : List ℕ) → IsField n bf → count_bits bf ≡ count_true n (λ i. has_bit bf (pos i))
count_bits-IsField n bf (size, bytes, clear) =
    count_bits_lem bf bytes
    ∙ ap (λ k. count_true k (λ i. has_bit bf (pos i))) split
    ∙ count_true_tail (length bf * 8 - n) n (λ i. has_bit bf (pos i)) clear
  where
    split : length bf * 8 ≡ length bf * 8 - n + n
    split = omega arith

-- On such a field `AllSet` tells whether every chunk is there.
pub all_set-IsField :
    (n : ℕ) (bf : List ℕ)
    → IsField n bf
    → (all_set bf n ≡ true) ↔ ((i : ℕ) → i < n → has_bit bf (pos i) ≡ true)
unfolding all_set
all_set-IsField n bf field = (
  λ h. all_of_count n (λ i. has_bit bf (pos i)) (ground (arith, count_bits-IsField n bf field, h)),
  λ h.
      ground (
        arith,
        count_bits-IsField n bf field,
        count_true_all n (λ i. has_bit bf (pos i)) h,
        field.0,
      ),
)
