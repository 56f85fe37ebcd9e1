-- ===== src/Swarm/Fields.antt =====
-- A bitfield of Storage/swarm/swarm.go as a set of chunks.
use dfs_go.Common.{ℕ, zero, suc, ◌/◌, ◌%◌, ◌<◌, ◌≡◌, refl, ap, ◌∙◌, arith}
use dfs_go.Common.{Bool, true, false, List, [], ◌∷◌, ltb, leb, ◌==◌, if◌then◌else◌, ◌&&◌}
use dfs_go.Common.{Bool-cases, inl, inr, ℕ_discrete, dec_lt, length, get_or, All}
use dfs_go.Ipc.Words.{pos}
use dfs_go.Swarm.{update_byte, with_bit, without_bit, bit}
use dfs_go.Swarm.{set_bit, clear_bit, has_bit}
use dfs_go.Swarm.Bytes.{bit-with_bit, bit-without_bit, with_bit-lt}

abbrev pub IsBytes : List ℕ → Type 0
IsBytes bf = All (λ b. b < 256) bf

pub length-update_byte : (f : ℕ → ℕ) (i : ℕ) (bs : List ℕ) → length (update_byte f i bs) ≡ length bs
length-update_byte f i [] = refl
length-update_byte f zero (b ∷ bs) = refl
length-update_byte f (suc i) (b ∷ bs) = ap suc (length-update_byte f i bs)

pub get_or-update_byte :
    (f : ℕ → ℕ) (i j : ℕ) (bs : List ℕ)
    → i < length bs
    → get_or (update_byte f i bs) j 0 ≡ (if i == j then f (get_or bs i 0) else get_or bs j 0)
get_or-update_byte f i j [] h = absurd (omega arith)
get_or-update_byte f zero zero (b ∷ bs) h = ground arith
get_or-update_byte f zero (suc j) (b ∷ bs) h = ground arith
get_or-update_byte f (suc i) zero (b ∷ bs) h = ground arith
get_or-update_byte f (suc i) (suc j) (b ∷ bs) h =
    get_or-update_byte f i j bs (omega arith) ∙ ground arith

get_or-IsByte : (bs : List ℕ) (i : ℕ) → IsBytes bs → get_or bs i 0 < 256
get_or-IsByte [] i h = omega arith
get_or-IsByte (b ∷ bs) zero h = h.0
get_or-IsByte (b ∷ bs) (suc i) h = get_or-IsByte bs i h.1

-- bit `m` of byte `q`, if there is such a byte
present : List ℕ → ℕ → ℕ → Bool
present bf q m = if leb (length bf) q then false else bit m (get_or bf q 0)

-- One byte of the field is changed at bit `k`, to `v`.
module _ (f : ℕ → ℕ) (v : Bool) (bf : List ℕ) (p k q m : ℕ) (inside : p < length bf)
    (acts : bit m (f (get_or bf p 0)) ≡ (if k == m then v else bit m (get_or bf p 0))) where
  present-update_byte :
      present (update_byte f p bf) q m ≡ (if (p == q) && (k == m) then v else present bf q m)
  unfolding present
  present-update_byte = elim (ℕ_discrete p q) [
    | yes e ↦
        rw (length-update_byte, get_or-update_byte f p q bf inside, ← e) (ground (arith, acts))
    | no n ↦ rw (length-update_byte, get_or-update_byte f p q bf inside) (ground arith)
  ]

split_eq : (i j : ℕ) → (i == j) ≡ ((i / 8 == j / 8) && (i % 8 == j % 8))
split_eq i j = ground arith

module _ (bf : List ℕ) (bytes : IsBytes bf) (i j : ℕ) where
  -- After `SetBit` a chunk is there if it was before, or it is the one set and the field has a byte
  -- for it.
  pub has_bit-set_bit :
      has_bit (set_bit bf (pos i)) (pos j)
      ≡ (if (i == j) && ltb (i / 8) (length bf) then true else has_bit bf (pos j))
  unfolding has_bit set_bit present
  has_bit-set_bit = elim (dec_lt (i / 8) (length bf)) [
    | yes h ↦ rw split_eq (
        ground (
          arith,
          present-update_byte (with_bit (i % 8)) true bf (i / 8) (i % 8) (j / 8) (j % 8) h (
              bit-with_bit (get_or bf (i / 8) 0) (i % 8) (j % 8) (get_or-IsByte bf (i / 8) bytes)
                (omega arith) (omega arith)),
        ))
    | no h ↦ ground arith
  ]

  -- After `ClearBit` a chunk is there if it was before, and is not the one cleared.
  pub has_bit-clear_bit :
      has_bit (clear_bit bf (pos i)) (pos j) ≡ (if i == j then false else has_bit bf (pos j))
  unfolding has_bit clear_bit present
  has_bit-clear_bit = elim (dec_lt (i / 8) (length bf)) [
    | yes h ↦ rw split_eq (
        ground (
          arith,
          present-update_byte (without_bit (i % 8)) false bf (i / 8) (i % 8) (j / 8) (j % 8) h (
              bit-without_bit (get_or bf (i / 8) 0) (i % 8) (j % 8) (get_or-IsByte bf (i / 8) bytes)
                (omega arith) (omega arith)),
        ))
    | no h ↦ ground arith
  ]

pub update_byte-IsBytes :
    (f : ℕ → ℕ)
    → ((b : ℕ) → b < 256 → f b < 256)
    → (i : ℕ) (bs : List ℕ) → IsBytes bs
    → IsBytes (update_byte f i bs)
update_byte-IsBytes f keeps i [] h = tt
update_byte-IsBytes f keeps zero (b ∷ bs) h = (keeps b h.0, h.1)
update_byte-IsBytes f keeps (suc i) (b ∷ bs) h = (h.0, update_byte-IsBytes f keeps i bs h.1)

pub set_bit-IsBytes :
    (bf : List ℕ) (i : ℕ)
    → IsBytes bf
    → (IsBytes (set_bit bf (pos i))) × (length (set_bit bf (pos i)) ≡ length bf)
unfolding set_bit
set_bit-IsBytes bf i h = elim (Bool-cases (leb (length bf) (i / 8))) [
  | inl e ↦ rw e (h, refl)
  | inr e ↦ rw e (
    update_byte-IsBytes (with_bit (i % 8)) (λ b lt. (with_bit-lt b (i % 8) lt (omega arith)).0)
        (i / 8) bf h,
    length-update_byte (with_bit (i % 8)) (i / 8) bf,
  )
]

pub clear_bit-IsBytes :
    (bf : List ℕ) (i : ℕ)
    → IsBytes bf
    → (IsBytes (clear_bit bf (pos i))) × (length (clear_bit bf (pos i)) ≡ length bf)
unfolding clear_bit
clear_bit-IsBytes bf i h = elim (Bool-cases (leb (length bf) (i / 8))) [
  | inl e ↦ rw e (h, refl)
  | inr e ↦ rw e (
    update_byte-IsBytes (without_bit (i % 8)) (λ b lt. (with_bit-lt b (i % 8) lt (omega arith)).1)
        (i / 8) bf h,
    length-update_byte (without_bit (i % 8)) (i / 8) bf,
  )
]
