-- ===== src/Tests/Trees.antt =====
-- Trees over short keys, with hashes of 64 bits.
use dfs_go.Common.{
  ℕ, ◌*◌, ◌+◌, ◌%◌, ◌^◌, ◌≡◌, refl, String, List, [], ◌∷◌, Bool, true, some, none, contains,
  string_discrete, ℕ_discrete, IsDistinct, arith,
}
use dfs_go.Common.Sort.{sort_by, insert_by}
use dfs_go.Merkle.{
  Node, hash_of, parent, pair_up, build_level, make_leaf, collect_keys, build, root_hash, repair,
  handle_sync,
}
use dfs_go.Merkle.Shape.{IsHashed, build-root}
use dfs_go.Merkle.Repair.{AreApart, sent, needed, only, repair_exact, handle_sync_silent}
use dfs_go.Tests.Ring.{toy}

abbrev pair : ℕ → ℕ → ℕ
pair a b = (a * 131 + b * 17 + 5) % 2 ^ 64

-- any order of the keys will do here
abbrev any_order : String → String → Bool
any_order a b = true

abbrev ours : List String
ours = "a" ∷ "b" ∷ "c" ∷ []

abbrev theirs : List String
theirs = "b" ∷ "d" ∷ []

build-root_example :
    (n : Node ℕ) × ((build toy pair any_order ours).root ≡ some n)
    × IsHashed toy pair n
    × ((k : String) → contains string_discrete (collect_keys n) k ≡ contains string_discrete ours k)
build-root_example = build-root toy pair any_order "a" ("b" ∷ "c" ∷ [])

repair_apart : AreApart ℕ_discrete toy pair 0 any_order ours theirs
unfolding build build_level pair_up make_leaf parent hash_of sort_by insert_by string_discrete
    ℕ_discrete
repair_apart = refl

repair_exact_example :
    ((k : String)
      → (contains string_discrete (sent (repair ℕ_discrete toy pair 0 any_order ours theirs)) k
          ≡ only ours theirs k)
        × (contains string_discrete (needed (repair ℕ_discrete toy pair 0 any_order ours theirs)) k
            ≡ only theirs ours k))
    × IsDistinct string_discrete (sent (repair ℕ_discrete toy pair 0 any_order ours theirs))
    × IsDistinct string_discrete (needed (repair ℕ_discrete toy pair 0 any_order ours theirs))
repair_exact_example = repair_exact ℕ_discrete toy pair 0 any_order ours theirs repair_apart

abbrev again : List String
again = "a" ∷ "b" ∷ "c" ∷ []

silent_apart : AreApart ℕ_discrete toy pair 0 any_order ours again
unfolding build build_level pair_up make_leaf parent hash_of sort_by insert_by string_discrete
    ℕ_discrete
silent_apart = refl

silent :
    handle_sync ℕ_discrete toy pair 0 any_order ours
      (root_hash ℕ_discrete 0 (build toy pair any_order again))
    ≡ none
unfolding handle_sync
silent = ground arith

handle_sync_silent_example : contains string_discrete ours "b" ≡ contains string_discrete again "b"
handle_sync_silent_example =
    handle_sync_silent ℕ_discrete toy pair 0 any_order ours again silent_apart silent "b"
