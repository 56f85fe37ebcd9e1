-- ===== src/Tests/Clocks.antt =====
-- Clocks of three nodes, and versions that carry them.
use mathlib.Core.List.{lookup, mem-cons_self, mem-cons_of_mem}
use native.Mathlib.Bridge.{le_prop}
use dfs_go.Common.{
  ◌^◌, ◌<◌, ◌+◌, ◌≡◌, ◌≢◌, refl, List, [], ◌∷◌, some, string_discrete, contains, arith, inl, inr,
  of_mem,
}
use dfs_go.VClock.{
  VectorClock, IsClock, before, concurrent, equal, read, merge, compare, compare_loop, collect,
  verdict,
}
use dfs_go.VClock.Order.{Relates, Dominated, compare-Relates}
use dfs_go.VClock.Laws.{merge_lub}
use dfs_go.Conflict.{Version, resolve, resolve_loop, judge}
use dfs_go.Conflict.Winner.{ClocksAgree, resolve_latest, resolve_undominated, resolve_stale}

abbrev low : VectorClock
low = ("a", 1) ∷ []

abbrev mid : VectorClock
mid = ("a", 1) ∷ ("b", 2) ∷ []

abbrev high : VectorClock
high = ("b", 2) ∷ ("a", 3) ∷ []

abbrev aside : VectorClock
aside = ("c", 4) ∷ []

low-IsClock : IsClock low
low-IsClock = unfold contains in (refl, tt)

mid-IsClock : IsClock mid
mid-IsClock = unfold contains in unfold string_discrete in (refl, (refl, tt))

low-mid : compare low mid ≡ before
unfolding compare compare_loop collect verdict read lookup contains string_discrete
low-mid = refl

mid-high : compare mid high ≡ before
unfolding compare compare_loop collect verdict read lookup contains string_discrete
mid-high = refl

compare-Relates_example : Relates (compare low aside) low aside
compare-Relates_example = compare-Relates low aside

merge_lub_example :
    Dominated low (merge low mid)
    × Dominated mid (merge low mid)
    × (Dominated low high → Dominated mid high → Dominated (merge low mid) high)
merge_lub_example = merge_lub low mid high low-IsClock mid-IsClock

short_of_top : read mid "b" + 1 < 2 ^ 64
unfolding read lookup string_discrete
short_of_top = omega arith

abbrev oldest : Version
oldest = record { node_addr = "n1"; clock = low; timestamp = 10 }

abbrev newest : Version
newest = record { node_addr = "n2"; clock = mid; timestamp = 20 }

abbrev both : List Version
both = oldest ∷ newest ∷ []

same : compare low low ≢ before
unfolding compare compare_loop collect verdict read lookup contains string_discrete
same = λ e. absurd (ground (arith, e))

back : compare mid low ≢ before
unfolding compare compare_loop collect verdict read lookup contains string_discrete
back = λ e. absurd (ground (arith, e))

even : compare mid mid ≢ before
unfolding compare compare_loop collect verdict read lookup contains string_discrete
even = λ e. absurd (ground (arith, e))

both-ClocksAgree : ClocksAgree both
both-ClocksAgree u v mu mv =
    of_mem (λ (x : Version). compare x.clock v.clock ≡ before → x.timestamp < v.timestamp) both u
      (λ x. hlevel (le_prop))
      (
        of_mem (λ (y : Version). compare low y.clock ≡ before → 10 < y.timestamp) both v
            (λ y. hlevel (le_prop)) ((λ e. absurd (same e)), ((λ e. omega arith), tt)) mv,
        (
          of_mem (λ (y : Version). compare mid y.clock ≡ before → 20 < y.timestamp) both v
              (λ y. hlevel (le_prop)) ((λ e. absurd (back e)), ((λ e. absurd (even e)), tt)) mv,
          tt,
        ),
      )
      mu

both-resolve : resolve both ≡ some newest
unfolding resolve resolve_loop judge compare compare_loop collect verdict read lookup contains
    string_discrete
both-resolve = refl

resolve_undominated_example : compare newest.clock oldest.clock ≢ before
resolve_undominated_example =
    resolve_undominated both both-ClocksAgree both-resolve oldest mem-cons_self

mid-mid : compare mid mid ≡ equal
unfolding compare compare_loop collect verdict read lookup contains string_discrete
mid-mid = refl

resolve_latest_example : compare newest.clock newest.clock ≡ equal
resolve_latest_example =
    resolve_latest both newest (mem-cons_of_mem oldest mem-cons_self)
      (inl low-mid, (inr mid-mid, tt)) both-resolve

abbrev stale : Version
stale = record { node_addr = "x"; clock = low; timestamp = 30 }

abbrev fresh : Version
fresh = record { node_addr = "y"; clock = mid; timestamp = 10 }

abbrev unrelated : Version
unrelated = record { node_addr = "z"; clock = aside; timestamp = 20 }

mid-aside : compare mid aside ≡ concurrent
unfolding compare compare_loop collect verdict read lookup contains string_discrete
mid-aside = refl

aside-low : compare aside low ≡ concurrent
unfolding compare compare_loop collect verdict read lookup contains string_discrete
aside-low = refl

resolve_stale_example : resolve (fresh ∷ unrelated ∷ stale ∷ []) ≡ some stale
resolve_stale_example =
    resolve_stale stale fresh unrelated low-mid mid-aside aside-low (omega arith) (omega arith)
