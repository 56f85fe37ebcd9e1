-- ===== src/Conflict/Winner.antt =====
-- Which version wins.
use mathlib.Core.List.{Mem, Mem-prop, Memᴰ, mem-cons, mem-cons_self, mem-cons_of_mem}
use mathlib.Core.Logic.Or
use mathlib.Core.Logic.{∥∥₁_elim}
use mathlib.Core.Path.{subst}
use mathlib.Core.HLevel.{¬_prop}
use dfs_go.Common.{
  ◌≤◌, ◌<◌, ◌≡◌, refl, ◌≢◌, ◌⊎◌, inl, inr, List, [], ◌∷◌, some, Bool-cases, ltb, arith, All, ap,
  ◌∙◌, tests, ltb→lt, ltb→le, All-of, All-map, of_mem,
}
use dfs_go.VClock.{Relation, before, after, concurrent, equal, compare}
use dfs_go.VClock.Laws.{Relates-of, compare_of, compare-mirror, mirror}
use dfs_go.Conflict.{Version, judge, resolve_loop, resolve}

judge-cases : (r : Relation) (best c : Version) → (judge r best c ≡ best) ⊎ (judge r best c ≡ c)
unfolding judge
judge-cases before best c = inr refl
judge-cases after best c = inl refl
judge-cases equal best c = inl refl
judge-cases concurrent best c = ground arith

resolve_loop-mem :
    (best : Version) (rest : List Version) → Mem (resolve_loop best rest) (best ∷ rest)
unfolding resolve_loop
resolve_loop-mem best [] = mem-cons_self
resolve_loop-mem best (c ∷ rest) = elim (judge-cases (compare best.clock c.clock) best c) [
  | inl e ↦ rw e (skip (resolve_loop-mem best rest))
  | inr e ↦ rw e (mem-cons_of_mem best (resolve_loop-mem c rest))
]
  where
    skip : {w : Version} → Mem w (best ∷ rest) → Mem w (best ∷ c ∷ rest)
    skip m =
        Or.elim Mem-prop (mem-cons.0 m) (λ e. rw e mem-cons_self)
          (λ h. mem-cons_of_mem best (mem-cons_of_mem c h))

-- The winner is one of the candidates.
pub resolve-mem : (vs : List Version) {w : Version} → resolve vs ≡ some w → Mem w vs
unfolding resolve
resolve-mem [] h = cc
resolve-mem (v ∷ vs) {w} h =
    let e : resolve_loop v vs ≡ w = cc in subst (λ x. Mem x (v ∷ vs)) e (resolve_loop-mem v vs)

-- A later clock in the causal order, or the same one.
abbrev pub Reaches : Version → Version → Type 0
Reaches u v = (compare u.clock v.clock ≡ before) ⊎ (compare u.clock v.clock ≡ equal)

-- Wall clocks that agree with the causal order on the versions at hand.
abbrev pub ClocksAgree : List Version → Type 0
ClocksAgree vs =
    (u v : Version)
    → Mem u vs
    → Mem v vs
    → compare u.clock v.clock ≡ before
    → u.timestamp < v.timestamp

Relation-set : IsSet Relation
Relation-set = hlevel

compare_self : (v : Version) → compare v.clock v.clock ≡ equal
compare_self v = compare_of v.clock v.clock equal (λ k. refl)

-- Equal clocks compare alike to a third.
compare_equal_right :
    (a b c : Version)
    → compare a.clock b.clock ≡ before
    → compare b.clock c.clock ≡ equal
    → compare a.clock c.clock ≡ before
compare_equal_right a b c p q =
    let h = Relates-of a.clock b.clock before p in
    let k = Relates-of b.clock c.clock equal q in
    compare_of a.clock c.clock before
      (λ n. omega (arith, h.0 n, k n), (h.1.0, omega (arith, h.1.1, k h.1.0)))

-- Once the running best has the latest clock, no candidate displaces it.
keeps_latest :
    (best c v : Version)
    → compare best.clock v.clock ≡ equal
    → Reaches c v
    → judge (compare best.clock c.clock) best c ≡ best
unfolding judge
keeps_latest best c v e (inl p) =
    let h = Relates-of best.clock v.clock equal e in
    let k = Relates-of c.clock v.clock before p in
    rw (
      compare_of best.clock c.clock after
        (λ n. omega (arith, h n, k.0 n), (k.1.0, omega (arith, k.1.1, h k.1.0))))
keeps_latest best c v e (inr p) =
    let h = Relates-of best.clock v.clock equal e in
    let k = Relates-of c.clock v.clock equal p in
    rw (compare_of best.clock c.clock equal (λ n. omega (arith, h n, k n)))

-- The latest version displaces any best that it is causally after.
takes_latest :
    (best v : Version)
    → Reaches best v
    → compare (judge (compare best.clock v.clock) best v).clock v.clock ≡ equal
unfolding judge
takes_latest best v (inl p) = rw p (compare_self v)
takes_latest best v (inr p) = rw p p

latest_kept :
    (best v : Version) (rest : List Version)
    → compare best.clock v.clock ≡ equal
    → All (λ u. Reaches u v) rest
    → compare (resolve_loop best rest).clock v.clock ≡ equal
unfolding resolve_loop
latest_kept best v [] e h = e
latest_kept best v (c ∷ rest) e h =
    rw (keeps_latest best c v e h.0, resolve_loop) (latest_kept best v rest e h.1)

latest_found :
    (best v : Version) (rest : List Version)
    → Reaches best v
    → All (λ u. Reaches u v) rest
    → Memᴰ v rest
    → compare (resolve_loop best rest).clock v.clock ≡ equal
unfolding resolve_loop
latest_found best v [] b h m = elim m [ ]
latest_found best v (c ∷ rest) b h (Memᴰ.head e) =
    latest_kept _ v rest
      (subst (λ x. compare (judge (compare best.clock x.clock) best x).clock v.clock ≡ equal) e
        (takes_latest best v b))
      h.1
latest_found best v (c ∷ rest) b h (Memᴰ.tail m) =
    elim (judge-cases (compare best.clock c.clock) best c) [
      | inl e ↦ rw (e, resolve_loop) (latest_found best v rest b h.1 m)
      | inr e ↦ rw (e, resolve_loop) (latest_found c v rest h.0 h.1 m)
    ]

resolve_latest_from :
    (vs : List Version) (v : Version) {w : Version}
    → Memᴰ v vs
    → All (λ u. Reaches u v) vs
    → resolve vs ≡ some w
    → compare w.clock v.clock ≡ equal
unfolding resolve
resolve_latest_from [] v m h r = elim m [ ]
resolve_latest_from (b ∷ rest) v {w} (Memᴰ.head e) h r =
    let found : resolve_loop b rest ≡ w = cc in
    subst (λ x. compare x.clock v.clock ≡ equal) found
      (latest_kept b v rest (subst (λ x. compare x.clock v.clock ≡ equal) e (compare_self v)) h.1)
resolve_latest_from (b ∷ rest) v {w} (Memᴰ.tail m) h r =
    let found : resolve_loop b rest ≡ w = cc in
    subst (λ x. compare x.clock v.clock ≡ equal) found (latest_found b v rest h.0 h.1 m)

-- If one candidate is causally at or after every candidate, the winner has its clock, whatever
-- the timestamps are.
pub resolve_latest :
    (vs : List Version) (v : Version) {w : Version}
    → Mem v vs
    → All (λ u. Reaches u v) vs
    → resolve vs ≡ some w
    → compare w.clock v.clock ≡ equal
resolve_latest vs v m h r = ∥∥₁_elim m (Relation-set _ _) (λ d. resolve_latest_from vs v d h r)

-- Some candidate has the clock of `v` and a timestamp no later than that of `best`.
abbrev Matched : List Version → Version → Version → Type 0
Matched vs best v =
    (u : Version) × Mem u vs × (compare v.clock u.clock ≡ equal) × (u.timestamp ≤ best.timestamp)

module _ (vs : List Version) (agree : ClocksAgree vs) where
  -- one step of the loop keeps the best timestamp or raises it, and matches the candidate
  judge-Matched :
      (best c : Version)
      → Mem best vs
      → Mem c vs
      → (best.timestamp ≤ (judge (compare best.clock c.clock) best c).timestamp)
        × Matched vs (judge (compare best.clock c.clock) best c) c
  unfolding judge
  judge-Matched best c mb mc = by_verdict (compare best.clock c.clock) refl
    where
      by_verdict :
          (r : Relation)
          → compare best.clock c.clock ≡ r
          → (best.timestamp ≤ (judge r best c).timestamp) × Matched vs (judge r best c) c
      by_verdict before e =
          (omega (arith, agree best c mb mc e), (c, mc, compare_self c, omega arith))
      by_verdict after e = (
        omega arith,
        (
          c,
          mc,
          compare_self c,
          omega (arith, agree c best mc mb (compare-mirror best.clock c.clock ∙ ap mirror e)),
        ),
      )
      by_verdict equal e =
          (omega arith, (best, mb, compare-mirror best.clock c.clock ∙ ap mirror e, omega arith))
      by_verdict concurrent e = elim (Bool-cases (ltb best.timestamp c.timestamp)) [
        | inl later ↦
            rw (later, judge)
              (omega (tests, ltb→lt _ _ later), (c, mc, compare_self c, omega arith))
        | inr sooner ↦
            rw (sooner, judge)
              (omega arith, (c, mc, compare_self c, omega (arith, ltb→le _ _ sooner)))
      ]

  judge-mem :
      (best c : Version)
      → Mem best vs
      → Mem c vs
      → Mem (judge (compare best.clock c.clock) best c) vs
  judge-mem best c mb mc = elim (judge-cases (compare best.clock c.clock) best c) [
    | inl e ↦ rw e mb
    | inr e ↦ rw e mc
  ]

  -- the loop never loses ground, and matches every candidate
  loop-Matched :
      (best : Version) (rest : List Version)
      → Mem best vs
      → All (λ c. Mem c vs) rest
      → (best.timestamp ≤ (resolve_loop best rest).timestamp)
        × All (Matched vs (resolve_loop best rest)) rest
  unfolding resolve_loop
  loop-Matched best [] mb h = (omega arith, tt)
  loop-Matched best (c ∷ rest) mb h =
      let step = judge-Matched best c mb h.0 in
      let later =
        loop-Matched (judge (compare best.clock c.clock) best c) rest (judge-mem best c mb h.0)
          h.1 in
      let (u, mu, same, bound) = step.1 in
      (omega (arith, step.0, later.0), ((u, mu, same, omega (arith, bound, later.0)), later.1))

  -- a version that matches another is not causally before it
  not_before : (w v : Version) → Mem w vs → Matched vs w v → compare w.clock v.clock ≢ before
  not_before w v mw (u, mu, same, bound) =
      λ b. absurd (omega (arith, agree w u mw mu (compare_equal_right w v u b same), bound))

  undominated_from :
      (best : Version) (rest : List Version)
      → Mem best vs
      → All (λ c. Mem c vs) rest
      → Mem (resolve_loop best rest) vs
      → All (λ v. compare (resolve_loop best rest).clock v.clock ≢ before) (best ∷ rest)
  undominated_from best rest mb h mw =
      let (grown, matched) = loop-Matched best rest mb h in
      let w = resolve_loop best rest in
      (
        not_before w best mw (best, mb, compare_self best, grown),
        All-map (λ v m. not_before w v mw m) rest matched,
      )

-- Where the timestamps agree with causality, no candidate is causally after the winner.
pub resolve_undominated :
    (vs : List Version) {w : Version}
    → ClocksAgree vs
    → resolve vs ≡ some w
    → (v : Version) → Mem v vs
    → compare w.clock v.clock ≢ before
unfolding resolve
resolve_undominated [] agree h v mv = absurd (cc)
resolve_undominated (b ∷ rest) {w} agree h v mv =
    let e : resolve_loop b rest ≡ w = cc in
    let all =
      undominated_from (b ∷ rest) agree b rest mem-cons_self
        (All-of (λ c. Mem c (b ∷ rest)) rest (λ c m. mem-cons_of_mem b m))
        (resolve_loop-mem b rest) in
    of_mem (λ x. compare w.clock x.clock ≢ before) (b ∷ rest) v (λ x. ¬_prop)
      (subst (λ y. All (λ x. compare y.clock x.clock ≢ before) (b ∷ rest)) e all) mv

-- Without that the rule of the comment, that the causally later version always wins, fails: a
-- version between two causally ordered ones in time, concurrent with both, lets the older one win.
pub resolve_stale :
    (x y z : Version)
    → compare x.clock y.clock ≡ before
    → compare y.clock z.clock ≡ concurrent
    → compare z.clock x.clock ≡ concurrent
    → y.timestamp < z.timestamp
    → z.timestamp < x.timestamp
    → resolve (y ∷ z ∷ x ∷ []) ≡ some x
unfolding resolve resolve_loop judge
resolve_stale x y z p q r s t = ground arith
