-- ===== src/Swarm.antt =====
-- The swarm store's bitfields (Storage/swarm/swarm.go): which chunks of a file a node has. A
-- bitfield is a list of bytes, and chunk i is bit i % 8 of byte i / 8. Indexes are Go ints, so the
-- guard on negative ones is a clause; the number of chunks of a file is not negative.
pub mod Bytes
pub mod Fields
pub mod Counts
pub mod Sets
pub mod Cache
use Prim.Native.Nat.{bit_and, bit_or, bit_xor}
use dfs_go.Common.{ℕ, zero, suc, ◌+◌, ◌-◌, ◌*◌, ◌/◌, ◌%◌, ◌^◌, Bool, true, false}
use dfs_go.Common.{List, [], ◌∷◌, ◌++◌, ltb, leb, ◌==◌, if◌then◌else◌, not, length, get_or, ◌&&◌}
use dfs_go.Ipc.Words.{ℤ, pos, negsuc}

-- `make([]byte, n)` filled with `b`
abbrev pub bytes_of : ℕ → ℕ → List ℕ
bytes_of zero b = []
bytes_of (suc n) b = b ∷ bytes_of n b

unfoldable pub new_bitfield : ℕ → List ℕ
new_bitfield total_chunks = bytes_of ((total_chunks + 7) / 8) 0

-- `bf[i] = f(bf[i])` at an index in range
abbrev pub update_byte : (ℕ → ℕ) → ℕ → List ℕ → List ℕ
update_byte f i [] = []
update_byte f zero (b ∷ bs) = f b ∷ bs
update_byte f (suc i) (b ∷ bs) = b ∷ update_byte f i bs

-- A total that is no multiple of eight leaves a last byte, whose trailing bits are cleared.
unfoldable pub new_full_bitfield : ℕ → List ℕ
new_full_bitfield total_chunks =
    let bf = bytes_of ((total_chunks + 7) / 8) 0xFF in
    let rem = total_chunks % 8 in
    if rem == 0 then bf else update_byte (λ _. 2 ^ rem - 1) (length bf - 1) bf

-- `b |= 1 << k`, `b &^= 1 << k` and `b & (1 << k) != 0` on a byte
unfoldable pub with_bit : ℕ → ℕ → ℕ
with_bit k b = bit_or b (2 ^ k)

unfoldable pub without_bit : ℕ → ℕ → ℕ
without_bit k b = bit_and b (bit_xor 0xFF (2 ^ k))

unfoldable pub bit : ℕ → ℕ → Bool
bit k b = not (bit_and b (2 ^ k) == 0)

unfoldable pub set_bit : List ℕ → ℤ → List ℕ
set_bit bf (negsuc n) = bf
set_bit bf (pos index) =
    if leb (length bf) (index / 8) then bf else update_byte (with_bit (index % 8)) (index / 8) bf

unfoldable pub clear_bit : List ℕ → ℤ → List ℕ
clear_bit bf (negsuc n) = bf
clear_bit bf (pos index) =
    if leb (length bf) (index / 8) then bf else update_byte (without_bit (index % 8)) (index / 8) bf

unfoldable pub has_bit : List ℕ → ℤ → Bool
has_bit bf (negsuc n) = false
has_bit bf (pos index) =
    if leb (length bf) (index / 8) then false else bit (index % 8) (get_or bf (index / 8) 0)

-- `for b != 0`, on fuel: each round clears one of at most eight bits
popcount_loop : ℕ → ℕ → ℕ → ℕ
popcount_loop zero b count = count
popcount_loop (suc fuel) b count =
    let rest = popcount_loop fuel (bit_and b (b - 1)) (count + 1) in if b == 0 then count else rest

unfoldable pub popcount : ℕ → ℕ
unfolding popcount_loop
popcount b = popcount_loop 9 b 0

unfoldable pub count_bits : List ℕ → ℕ
count_bits [] = 0
count_bits (b ∷ bs) = popcount b + count_bits bs

unfoldable pub all_set : List ℕ → ℕ → Bool
all_set bf total_chunks =
    if (length bf == 0) && ltb 0 total_chunks then false else leb total_chunks (count_bits bf)
