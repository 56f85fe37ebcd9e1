-- ===== src/Ipc/Words.antt =====
-- Machine words on the wire (ipc/wire.go by way of Go's encoding/binary): big-endian words of
-- two, four and eight bytes, and the 64-bit two's complement of an int64.
use dfs_go.Common.{ℕ, zero, suc, ◌+◌, ◌-◌, ◌*◌, ◌/◌, ◌%◌, ◌^◌, ◌<◌, ◌≡◌, refl, ap, arith}
use dfs_go.Common.{List, [], ◌∷◌, ltb, if◌then◌else◌, length}

-- `BigEndian.PutUint16`, `PutUint32` and `PutUint64`, for 2, 4 and 8 bytes
unfoldable pub put_be : ℕ → ℕ → List ℕ
put_be zero v = []
put_be (suc k) v = v / 256 ^ k % 256 ∷ put_be k v

get_be_from : ℕ → List ℕ → ℕ
get_be_from acc [] = acc
get_be_from acc (b ∷ bs) = get_be_from (acc * 256 + b) bs

-- `BigEndian.Uint16`, `Uint32` and `Uint64`
unfoldable pub get_be : List ℕ → ℕ
unfolding get_be_from
get_be bs = get_be_from 0 bs

-- Go's int64
pub data ℤ : Type 0 where
  pos negsuc : ℕ → ℤ

abbrev pub IsInt64 : ℤ → Type 0
IsInt64 (pos n) = n < 2 ^ 63
IsInt64 (negsuc n) = n < 2 ^ 63

-- `uint64(i)` and `int64(u)`
unfoldable pub from_int64 : ℤ → ℕ
from_int64 (pos n) = n
from_int64 (negsuc n) = 2 ^ 64 - 1 - n

unfoldable pub to_int64 : ℕ → ℤ
to_int64 u = if ltb u (2 ^ 63) then pos u else negsuc (2 ^ 64 - 1 - u)

pub length-put_be : (k v : ℕ) → length (put_be k v) ≡ k
unfolding put_be
length-put_be zero v = refl
length-put_be (suc k) v = ap suc (length-put_be k v)

pub to_int64-from_int64 : (i : ℤ) → IsInt64 i → to_int64 (from_int64 i) ≡ i
unfolding to_int64 from_int64
to_int64-from_int64 (pos n) h = ground arith
to_int64-from_int64 (negsuc n) h = ground arith

pub from_int64-lt : (i : ℤ) → IsInt64 i → from_int64 i < 2 ^ 64
unfolding from_int64
from_int64-lt (pos n) h = omega arith
from_int64-lt (negsuc n) h = omega arith

pub get_be-put_be_2 : (v : ℕ) → get_be (put_be 2 v) ≡ v % 2 ^ 16
unfolding get_be put_be get_be_from
get_be-put_be_2 v = omega arith

pub get_be-put_be_4 : (v : ℕ) → get_be (put_be 4 v) ≡ v % 2 ^ 32
unfolding get_be put_be get_be_from
get_be-put_be_4 v = omega arith

pub get_be-put_be_8 : (v : ℕ) → get_be (put_be 8 v) ≡ v % 2 ^ 64
unfolding get_be put_be get_be_from
get_be-put_be_8 v = omega arith
