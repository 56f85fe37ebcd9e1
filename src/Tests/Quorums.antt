-- ===== src/Tests/Quorums.antt =====
-- A cluster of three targets with W = R = 2, and a rebalancer on a ring.
use mathlib.Core.List.{lookup, Mem}
use native.Mathlib.Bridge.{le_prop}
use dfs_go.Common.{
  ◌<◌, ◌≡◌, ◌≢◌, refl, max, String, List, [], ◌∷◌, Bool, true, false, some, none, string_discrete,
  arith, contains, length, take, select, map, leb, if◌then◌else◌, of_mem, inr, ap, ◌∙◌,
}
use dfs_go.VClock.{
  VectorClock, Relation, before, equal, compare, compare_loop, collect, verdict, read as count_of,
}
use dfs_go.Conflict.{Version, resolve, resolve_loop, judge}
use dfs_go.Conflict.Winner.{ClocksAgree}
use dfs_go.Quorum.{
  Config, WriteAck, ReadResponse, write_timeout, write, write_loop, read, read_loop, at_timeout,
  resolve_read, version_of, found_clock,
}
use dfs_go.Quorum.Count.{successes, finds, write_counts, read_uses}
use dfs_go.Quorum.Overlap.{Covers, read_sees_write}

abbrev two_of_three : Config
two_of_three = record { n = 3; w = 2; r = 2; timeout = 5 }

abbrev ack : String → Bool → WriteAck
ack node ok = record { node_addr = node; key = "k"; success = ok; err_msg = "" }

abbrev acks : List WriteAck
acks = ack "a" true ∷ ack "b" false ∷ ack "c" true ∷ []

write_counts_example : write two_of_three "k" acks ≡ (
    if leb (max 1 2) (length (successes acks))
    then none
    else some (write_timeout (length (successes acks)) 2 "k"))
write_counts_example = write_counts two_of_three "k" acks

abbrev clock : VectorClock
clock = ("a", 1) ∷ []

abbrev response : String → Bool → ReadResponse
response node found = record {
  node_addr = node;
  key = "k";
  found = found;
  clock = clock;
  timestamp = 9;
}

abbrev responses : List ReadResponse
responses = response "b" true ∷ response "d" false ∷ response "c" true ∷ []

read_uses_example : read two_of_three responses ≡ at_timeout (take 2 (finds responses))
read_uses_example = read_uses two_of_three responses (omega arith)

confirmed : write two_of_three "k" acks ≡ none
unfolding write write_loop
confirmed = refl

same : compare clock clock ≡ equal
unfolding compare compare_loop collect verdict count_of lookup contains string_discrete
same = refl

not_before : compare clock clock ≢ before
not_before = λ e. absurd (ground (arith, e, same))

found_it : read two_of_three responses ≡ found_clock clock
unfolding read read_loop resolve_read resolve resolve_loop judge version_of compare compare_loop
    collect verdict count_of lookup contains string_discrete
found_it = refl

abbrev used : List ReadResponse
used = response "b" true ∷ response "c" true ∷ []

agree : ClocksAgree (map version_of used)
unfolding version_of
agree u v mu mv =
    let inner =
      of_mem (λ (y : Version). compare clock y.clock ≡ before → 9 < y.timestamp)
        (map version_of used) v (λ y. hlevel (le_prop))
        ((λ e. absurd (not_before e)), ((λ e. absurd (not_before e)), tt)) mv in
    of_mem (λ (x : Version). compare x.clock v.clock ≡ before → x.timestamp < v.timestamp)
      (map version_of used) u (λ x. hlevel (le_prop)) (inner, (inner, tt)) mu

Relation-set : IsSet Relation
Relation-set = hlevel

covers :
    (a : WriteAck) (resp : ReadResponse)
    → Mem a (successes acks)
    → Mem resp (take 2 (finds responses))
    → a.node_addr ≡ resp.node_addr
    → Covers resp.clock clock
unfolding select
covers a resp ma mr e = inr (
    of_mem (λ (r : ReadResponse). compare clock r.clock ≡ equal) used resp (λ r. Relation-set _ _)
      (same, (same, tt)) mr)

abbrev targets : List String
targets = "a" ∷ "b" ∷ "c" ∷ []

in_targets :
    (a b : String)
    → contains string_discrete targets a ≡ true
    → contains string_discrete targets b ≡ true
    → (q : String) → contains string_discrete (a ∷ b ∷ []) q ≡ true
    → contains string_discrete targets q ≡ true
in_targets a b ha hb q m = elim (string_discrete q a) [
  | yes e ↦ ap (contains string_discrete targets) e ∙ ha
  | no n ↦ elim (string_discrete q b) [
    | yes f ↦ ap (contains string_discrete targets) f ∙ hb
    | no k ↦ absurd (unfold contains in ground (arith, m, n, k))
  ]
]

read_sees_write_example : compare clock clock ≢ before
unfolding select
read_sees_write_example =
    read_sees_write two_of_three "k" targets acks responses clock clock (omega arith) (omega arith)
      confirmed (unfold contains in unfold string_discrete in (refl, (refl, tt)))
      (in_targets "a" "c" (unfold contains in unfold string_discrete in refl)
        (unfold contains in unfold string_discrete in refl))
      (omega arith) (unfold contains in unfold string_discrete in (refl, (refl, tt)))
      (in_targets "b" "c" (unfold contains in unfold string_discrete in refl)
        (unfold contains in unfold string_discrete in refl))
      covers agree found_it
