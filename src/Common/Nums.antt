-- ===== src/Common/Nums.antt =====
-- The order on numbers as a test, for sorting, and `%d`.
use Prim.Native.Nat.{ℕ, zero, suc, ◌/◌, ◌%◌}
use Prim.Native.String.{String, ◌++◌}
use mathlib.Core.Path.{◌≡◌}
use mathlib.Core.Bool.{true}
use native.Mathlib.Omega.{arith}
use dfs_go.Common.Tests.{leb, ltb, ◌==◌, if◌then◌else◌}
use dfs_go.Common.Sort.{IsTotal}

leb_trans : (a b c : ℕ) → leb a b ≡ true → leb b c ≡ true → leb a c ≡ true
leb_trans a b c h k = ground arith

pub leb-IsTotal : IsTotal leb
leb-IsTotal = record {
  total = λ a b h. ground arith;
  trans = leb_trans;
  antisymm = λ a b h k. ground arith;
}

digit : ℕ → String
digit d =
    if d == 0
    then "0"
    else if d == 1
    then "1"
    else if d == 2
    then "2"
    else if d == 3
    then "3"
    else if d == 4
    then "4"
    else if d == 5
    then "5"
    else if d == 6
    then "6"
    else if d == 7
    then "7"
    else if d == 8
    then "8"
    else "9"

-- `%d` of a number below 10^fuel
digits_of : ℕ → ℕ → String
digits_of zero n = ""
digits_of (suc fuel) n =
    let rest = digits_of fuel (n / 10) in if ltb n 10 then digit n else rest ++ digit (n % 10)

-- `%d`; twenty digits are enough for a uint64
unfoldable pub decimal : ℕ → String
unfolding digits_of digit
decimal n = digits_of 20 n
