-- ===== src/Conflict.antt =====
-- Cluster/conflict/conflict.go: last-write-wins among the versions of a key. A timestamp is a Unix
-- time in nanoseconds, so a number; `resolve [] = none` stands for the panic on an empty slice.
pub mod Winner
use dfs_go.Common.{ℕ, String, List, [], ◌∷◌, Option, none, some, ltb, if◌then◌else◌}
use dfs_go.VClock.{VectorClock, Relation, before, after, concurrent, equal, compare}

pub record Version : Type 0 where
  pub node_addr : String
  pub clock : VectorClock
  pub timestamp : ℕ

-- the `switch` on the relation of the best version to the candidate
unfoldable pub judge : Relation → Version → Version → Version
judge before best candidate = candidate
judge after best candidate = best
judge equal best candidate = best
judge concurrent best candidate = if ltb best.timestamp candidate.timestamp then candidate else best

unfoldable pub resolve_loop : Version → List Version → Version
resolve_loop best [] = best
resolve_loop best (candidate ∷ rest) =
    resolve_loop (judge (compare best.clock candidate.clock) best candidate) rest

unfoldable pub resolve : List Version → Option Version
resolve [] = none
resolve (best ∷ rest) = some (resolve_loop best rest)
