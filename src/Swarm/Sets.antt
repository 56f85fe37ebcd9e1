-- ===== src/Swarm/Sets.antt =====
-- A bitfield of Storage/swarm/swarm.go stands for the set of the chunks that were set and not
-- cleared since.
use dfs_go.Common.{ℕ, zero, suc, ◌+◌, ◌-◌, ◌/◌, ◌%◌, ◌^◌, ◌≤◌, ◌<◌, ◌≡◌, refl, sym, ap, ◌∙◌, arith}
use dfs_go.Common.{Bool, true, false, List, [], ◌∷◌, ltb, ◌==◌, if◌then◌else◌}
use dfs_go.Common.{◌↔◌, ℕ_discrete, length, get_or, All}
use dfs_go.Ipc.Words.{ℤ, pos, negsuc}
use dfs_go.Swarm.{bytes_of, new_bitfield, new_full_bitfield, update_byte, bit, set_bit, clear_bit}
use dfs_go.Swarm.{has_bit, all_set}
use dfs_go.Swarm.Bytes.{bit_low, low-lt}
use dfs_go.Swarm.Fields.{IsBytes, has_bit-set_bit, has_bit-clear_bit, set_bit-IsBytes}
use dfs_go.Swarm.Fields.{
  clear_bit-IsBytes, update_byte-IsBytes, length-update_byte, get_or-update_byte,
}
use dfs_go.Swarm.Counts.{all_set-IsField}

pub data Update : Type 0 where
  set clear : ℤ → Update

-- the field of a file of `n` chunks after updates, the newest of which comes first
unfoldable pub run : ℕ → List Update → List ℕ
run n [] = new_bitfield n
run n (set i ∷ past) = set_bit (run n past) i
run n (clear i ∷ past) = clear_bit (run n past) i

-- the abstract set: the newest update of a chunk decides
unfoldable pub holds : List Update → ℕ → Bool
holds [] j = false
holds (set (pos i) ∷ past) j = if i == j then true else holds past j
holds (set (negsuc i) ∷ past) j = holds past j
holds (clear (pos i) ∷ past) j = if i == j then false else holds past j
holds (clear (negsuc i) ∷ past) j = holds past j

-- Only chunks of the file are set.
abbrev pub IsInside : ℕ → Update → Type 0
IsInside n (set (pos i)) = i < n
IsInside n (set (negsuc i)) = Unit
IsInside n (clear i) = Unit

length-bytes_of : (n b : ℕ) → length (bytes_of n b) ≡ n
length-bytes_of zero b = refl
length-bytes_of (suc n) b = ap suc (length-bytes_of n b)

bytes_of-IsBytes : (n b : ℕ) → b < 256 → IsBytes (bytes_of n b)
bytes_of-IsBytes zero b h = tt
bytes_of-IsBytes (suc n) b h = (h, bytes_of-IsBytes n b h)

get_or-bytes_of : (n b i : ℕ) → i < n → get_or (bytes_of n b) i 0 ≡ b
get_or-bytes_of zero b i h = absurd (omega arith)
get_or-bytes_of (suc n) b zero h = refl
get_or-bytes_of (suc n) b (suc i) h = get_or-bytes_of n b i (omega arith)

bit-zero : (k : ℕ) → k < 8 → bit k 0 ≡ false
bit-zero k h = bit_low 0 k (omega arith) h ∙ ground arith

has_bit-new : (n j : ℕ) → has_bit (new_bitfield n) (pos j) ≡ false
unfolding has_bit new_bitfield
has_bit-new n j = ground (
  arith,
  length-bytes_of ((n + 7) / 8) 0,
  get_or-bytes_of ((n + 7) / 8) 0 (j / 8),
  bit-zero (j % 8) (omega arith),
)

-- The field of a file of `n` chunks has exactly the chunks of the set `p`.
abbrev pub Stands : ℕ → List ℕ → (ℕ → Bool) → Type 0
Stands n bf p =
    (IsBytes bf)
    × (length bf ≡ (n + 7) / 8)
    × ((j : ℕ) → has_bit bf (pos j) ≡ p j)
    × ((j : ℕ) → n ≤ j → p j ≡ false)

Stands-new : (n : ℕ) → Stands n (new_bitfield n) (λ j. false)
Stands-new n = (
  (unfold new_bitfield in bytes_of-IsBytes ((n + 7) / 8) 0 (omega arith)),
  (unfold new_bitfield in length-bytes_of ((n + 7) / 8) 0),
  has_bit-new n,
  λ j le. refl,
)

Stands-set :
    (n : ℕ) (bf : List ℕ) (p : ℕ → Bool) (i : ℕ)
    → i < n
    → Stands n bf p
    → Stands n (set_bit bf (pos i)) (λ j. if i == j then true else p j)
Stands-set n bf p i lt (bytes, size, same, tail) = (
  (set_bit-IsBytes bf i bytes).0,
  (set_bit-IsBytes bf i bytes).1 ∙ size,
  λ j. ground (arith, has_bit-set_bit bf bytes i j, same j),
  λ j le. ground (arith, tail j le),
)

Stands-clear :
    (n : ℕ) (bf : List ℕ) (p : ℕ → Bool) (i : ℕ)
    → Stands n bf p
    → Stands n (clear_bit bf (pos i)) (λ j. if i == j then false else p j)
Stands-clear n bf p i (bytes, size, same, tail) = (
  (clear_bit-IsBytes bf i bytes).0,
  (clear_bit-IsBytes bf i bytes).1 ∙ size,
  λ j. ground (arith, has_bit-clear_bit bf bytes i j, same j),
  λ j le. ground (arith, tail j le),
)

Stands-negative :
    (n i : ℕ) (bf : List ℕ) (p : ℕ → Bool)
    → Stands n bf p
    → Stands n (set_bit bf (negsuc i)) p × Stands n (clear_bit bf (negsuc i)) p
unfolding set_bit clear_bit
Stands-negative n i bf p h = (h, h)

run-Stands :
    (n : ℕ) (past : List Update) → All (IsInside n) past → Stands n (run n past) (λ j. holds past j)
unfolding run holds
run-Stands n [] h = Stands-new n
run-Stands n (set (pos i) ∷ past) (hi, h) =
    Stands-set n (run n past) (λ j. holds past j) i hi (run-Stands n past h)
run-Stands n (set (negsuc i) ∷ past) (hi, h) =
    (Stands-negative n i (run n past) (λ j. holds past j) (run-Stands n past h)).0
run-Stands n (clear (pos i) ∷ past) (hi, h) =
    Stands-clear n (run n past) (λ j. holds past j) i (run-Stands n past h)
run-Stands n (clear (negsuc i) ∷ past) (hi, h) =
    (Stands-negative n i (run n past) (λ j. holds past j) (run-Stands n past h)).1

all_set-Stands :
    (n : ℕ) (bf : List ℕ) (p : ℕ → Bool)
    → Stands n bf p
    → (all_set bf n ≡ true) ↔ ((i : ℕ) → i < n → p i ≡ true)
all_set-Stands n bf p (bytes, size, same, tail) =
    let (to, back) = all_set-IsField n bf (size, bytes, λ i le. same i ∙ tail i le) in
    (λ h i lt. sym (same i) ∙ to h i lt, λ h. back (λ i lt. same i ∙ h i lt))

-- After any updates of a new bitfield, which set chunks of the file only, `HasBit` tells of each
-- index whether the newest update of it has set it, and `AllSet` whether that is so of every chunk.
pub run_lem :
    (n : ℕ) (past : List Update)
    → All (IsInside n) past
    → ((j : ℕ) → has_bit (run n past) (pos j) ≡ holds past j)
      × ((all_set (run n past) n ≡ true) ↔ ((i : ℕ) → i < n → holds past i ≡ true))
run_lem n past h =
    let s = run-Stands n past h in (s.2, all_set-Stands n (run n past) (λ j. holds past j) s)

bit-ones : (k : ℕ) → k < 8 → bit k 255 ≡ true
bit-ones k h = bit_low 8 k (omega arith) h ∙ ground arith

-- all bytes full, for a total that is a multiple of eight
full_even : (n j : ℕ) → n % 8 ≡ 0 → has_bit (bytes_of ((n + 7) / 8) 255) (pos j) ≡ ltb j n
unfolding has_bit
full_even n j e = ground (
  arith,
  length-bytes_of ((n + 7) / 8) 255,
  get_or-bytes_of ((n + 7) / 8) 255 (j / 8),
  bit-ones (j % 8) (omega arith),
)

-- the last byte has the bits of the chunks that are left
full_odd :
    (n j : ℕ)
    → ¬ (n % 8 ≡ 0)
    → has_bit (update_byte (λ _. 2 ^ (n % 8) - 1) (n / 8) (bytes_of ((n + 7) / 8) 255)) (pos j)
      ≡ ltb j n
unfolding has_bit
full_odd n j ne =
    rw
      (
        length-update_byte,
        get_or-update_byte (λ _. 2 ^ (n % 8) - 1) (n / 8) (j / 8) (bytes_of ((n + 7) / 8) 255)
            inside,
      )
      (ground (
        arith,
        length-bytes_of ((n + 7) / 8) 255,
        get_or-bytes_of ((n + 7) / 8) 255 (j / 8),
        bit-ones (j % 8) (omega arith),
        bit_low (n % 8) (j % 8) (omega arith) (omega arith),
      ))
  where
    inside : n / 8 < length (bytes_of ((n + 7) / 8) 255)
    inside = omega (arith, length-bytes_of ((n + 7) / 8) 255)

Stands-full : (n : ℕ) → Stands n (new_full_bitfield n) (λ j. ltb j n)
unfolding new_full_bitfield
Stands-full n = elim (ℕ_discrete (n % 8) 0) [
  | yes e ↦ rw (zero_test e) (
    bytes_of-IsBytes ((n + 7) / 8) 255 (omega arith),
    length-bytes_of ((n + 7) / 8) 255,
    λ j. full_even n j e,
    λ j le. ground arith,
  )
  | no ne ↦
      rw (nonzero_test ne, last ne)
        (
          update_byte-IsBytes (λ _. 2 ^ (n % 8) - 1) (λ b lt. low-lt (n % 8) (omega arith)) (n / 8)
              _ (bytes_of-IsBytes ((n + 7) / 8) 255 (omega arith)),
          length-update_byte (λ _. 2 ^ (n % 8) - 1) (n / 8) (bytes_of ((n + 7) / 8) 255)
              ∙ length-bytes_of ((n + 7) / 8) 255,
          λ j. full_odd n j ne,
          λ j le. ground arith,
        )
]
  where
    zero_test : n % 8 ≡ 0 → (n % 8 == 0) ≡ true
    zero_test e = ground arith

    nonzero_test : ¬ (n % 8 ≡ 0) → (n % 8 == 0) ≡ false
    nonzero_test ne = ground arith

    last : ¬ (n % 8 ≡ 0) → length (bytes_of ((n + 7) / 8) 255) - 1 ≡ n / 8
    last ne = omega (arith, length-bytes_of ((n + 7) / 8) 255)

-- A full bitfield has exactly the chunks of the file, and `AllSet` is true of it.
pub new_full_bitfield-Full :
    (n : ℕ)
    → ((j : ℕ) → has_bit (new_full_bitfield n) (pos j) ≡ ltb j n)
      × (all_set (new_full_bitfield n) n ≡ true)
new_full_bitfield-Full n =
    let s = Stands-full n in
    (s.2, (all_set-Stands n (new_full_bitfield n) (λ j. ltb j n) s).1 (λ i lt. ground arith))
