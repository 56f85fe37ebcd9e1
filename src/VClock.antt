-- ===== src/VClock.antt =====
-- Cluster/vclock/vclock.go: vector clocks. A `map[string]uint64` is an association list, a missing
-- node reads as 0 and a counter wraps at 2^64. `Encode` and `Decode` (encoding/gob) are left out.
pub mod Order
pub mod Laws
use mathlib.Core.List.{lookup}
use mathlib.Core.Option
use dfs_go.Common.{
  ℕ, ◌+◌, ◌%◌, ◌^◌, String, List, [], ◌∷◌, Bool, true, false, ◌&&◌, ltb, if◌then◌else◌,
  string_discrete, contains, IsDistinct,
}
use dfs_go.Common.Assoc.{insert, keys}

abbrev pub VectorClock : Type 0
VectorClock = List (String × ℕ)

pub data Relation : Type 0 where
  before after concurrent equal : Relation

-- the keys of a Go map are distinct
abbrev pub IsClock : VectorClock → Type 0
IsClock vc = IsDistinct string_discrete (keys vc)

-- `vc[node]`
unfoldable pub read : VectorClock → String → ℕ
read vc node = Option.get_or (lookup string_discrete node vc) 0

unfoldable pub new : VectorClock
new = []

-- the loop of `Copy`
unfoldable pub copy_into : VectorClock → VectorClock → VectorClock
copy_into c [] = c
copy_into c ((k, v) ∷ vc) = copy_into (insert string_discrete k v c) vc

unfoldable pub copy : VectorClock → VectorClock
unfolding copy_into
copy vc = copy_into [] vc

-- `c[nodeAddr]++` on a copy
unfoldable pub increment : VectorClock → String → VectorClock
increment vc node = let c = copy vc in insert string_discrete node ((read c node + 1) % 2 ^ 64) c

-- `if v > result[k] { result[k] = v }`
unfoldable pub raise : VectorClock → String → ℕ → VectorClock
raise result k v = if ltb (read result k) v then insert string_discrete k v result else result

-- the loop of `Merge` over the entries of the other clock
unfoldable pub merge_into : VectorClock → VectorClock → VectorClock
merge_into result [] = result
merge_into result ((k, v) ∷ other) = merge_into (raise result k v) other

unfoldable pub merge : VectorClock → VectorClock → VectorClock
merge vc other = merge_into (copy vc) other

-- `keys[k] = struct{}{}` for each entry of a clock
unfoldable pub collect : List String → VectorClock → List String
collect ks [] = ks
collect ks ((k, _) ∷ vc) = collect (if contains string_discrete ks k then ks else k ∷ ks) vc

-- the final `switch` of `Compare`; the loop has returned where both flags are set
unfoldable pub verdict : Bool → Bool → Relation
verdict false false = equal
verdict true _ = after
verdict false true = before

-- the loop of `Compare`, with its flags `thisGreater` and `otherGreater`
unfoldable pub compare_loop : VectorClock → VectorClock → Bool → Bool → List String → Relation
compare_loop vc other greater less [] = verdict greater less
compare_loop vc other greater less (k ∷ ks) =
    let a = read vc k in
    let b = read other k in
    let greater' = if ltb b a then true else greater in
    let less' = if ltb b a then less else if ltb a b then true else less in
    let rest = compare_loop vc other greater' less' ks in
    if greater' && less' then concurrent else rest

unfoldable pub compare : VectorClock → VectorClock → Relation
compare vc other = compare_loop vc other false false (collect (collect [] vc) other)
