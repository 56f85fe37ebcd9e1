-- ===== src/VClock/Order.antt =====
-- `Compare` decides the causal order of two clocks.
use dfs_go.Common.{
  ◌≤◌, ◌<◌, ◌≡◌, refl, String, List, [], ◌∷◌, Bool, true, false, ◌&&◌, ltb, if◌then◌else◌,
  string_discrete, contains, any_of, any_of-true, any_of-false, arith, Bool-cases, inl, inr, ltb→lt,
  tests,
}
use dfs_go.Common.Assoc.{keys, lookup_absent}
use dfs_go.VClock.{
  VectorClock, Relation, before, after, concurrent, equal, read, collect, verdict, compare_loop,
  compare,
}

-- Pointwise order of two clocks.
abbrev pub Dominated : VectorClock → VectorClock → Type 0
Dominated a b = (k : String) → read a k ≤ read b k

-- Some node has a strictly smaller counter in the first clock.
abbrev pub Behind : VectorClock → VectorClock → Type 0
Behind a b = (k : String) × (read a k < read b k)

-- What each verdict promises; the four cases exclude one another.
abbrev pub Relates : Relation → VectorClock → VectorClock → Type 0
Relates before a b = Dominated a b × Behind a b
Relates after a b = Dominated b a × Behind b a
Relates concurrent a b = Behind a b × Behind b a
Relates equal a b = (k : String) → read a k ≡ read b k

contains-collect :
    (ks : List String) (vc : VectorClock) (k : String)
    → contains string_discrete (collect ks vc) k
      ≡ (if contains string_discrete ks k then true else contains string_discrete (keys vc) k)
unfolding collect contains
contains-collect ks [] k = ground arith
contains-collect ks ((j, v) ∷ vc) k = elim (Bool-cases (contains string_discrete ks j)) [
  | inl e ↦ ground (arith, contains-collect ks vc k)
  | inr e ↦ ground (arith, contains-collect (j ∷ ks) vc k)
]

-- The flags that a whole loop would collect.
abbrev more : VectorClock → VectorClock → String → Bool
more a b k = ltb (read b k) (read a k)

settle : Bool → Bool → Relation
settle true true = concurrent
settle g l = verdict g l

loop-settle :
    (a b : VectorClock) (g l : Bool) (ks : List String)
    → (g && l) ≡ false
    → compare_loop a b g l ks
      ≡ settle (if g then true else any_of (more a b) ks) (if l then true else any_of (more b a) ks)
unfolding compare_loop settle any_of
loop-settle a b true true [] h = ground arith
loop-settle a b true false [] h = refl
loop-settle a b false true [] h = refl
loop-settle a b false false [] h = refl
loop-settle a b g l (k ∷ ks) h =
    ground (arith, loop-settle a b g l ks, loop-settle a b true l ks, loop-settle a b g true ks)

module _ (a b : VectorClock) where
  abbrev nodes : List String
  nodes = collect (collect [] a) b

  -- a node that neither clock names reads as 0 in both
  absent_zero :
      (k : String) → contains string_discrete nodes k ≡ false → (read a k ≡ 0) × (read b k ≡ 0)
  unfolding read contains
  absent_zero k h = ground (
    arith,
    contains-collect (collect [] a) b k,
    contains-collect [] a k,
    lookup_absent string_discrete k a,
    lookup_absent string_discrete k b,
  )

  none_more : any_of (more a b) nodes ≡ false → Dominated a b
  none_more h k = elim (Bool-cases (contains string_discrete nodes k)) [
    | inl e ↦ omega (tests, any_of-false string_discrete (more a b) nodes k h e)
    | inr e ↦ omega (arith, absent_zero k e)
  ]

  none_less : any_of (more b a) nodes ≡ false → Dominated b a
  none_less h k = elim (Bool-cases (contains string_discrete nodes k)) [
    | inl e ↦ omega (tests, any_of-false string_discrete (more b a) nodes k h e)
    | inr e ↦ omega (arith, absent_zero k e)
  ]

  some_more : any_of (more a b) nodes ≡ true → Behind b a
  some_more h = let (k, e) = any_of-true (more a b) nodes h in (k, ltb→lt _ _ e)

  some_less : any_of (more b a) nodes ≡ true → Behind a b
  some_less h = let (k, e) = any_of-true (more b a) nodes h in (k, ltb→lt _ _ e)

  settle-Relates :
      (g l : Bool)
      → any_of (more a b) nodes ≡ g
      → any_of (more b a) nodes ≡ l
      → Relates (settle g l) a b
  unfolding settle verdict
  settle-Relates true true g l = (some_less l, some_more g)
  settle-Relates true false g l = (none_less l, some_more g)
  settle-Relates false true g l = (none_more g, some_less l)
  settle-Relates false false g l = λ k. omega (arith, none_more g k, none_less l k)

  -- Compare's verdict is the causal relation of the two clocks: Before (After) exactly when
  -- every counter is at most (at least) the other's and one is strictly so, Equal when all
  -- counters agree, Concurrent when each clock is strictly ahead somewhere.
  pub compare-Relates : Relates (compare a b) a b
  unfolding compare
  compare-Relates = rw (loop-settle a b false false nodes refl) (settle-Relates _ _ refl refl)
