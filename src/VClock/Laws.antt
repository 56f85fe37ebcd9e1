-- ===== src/VClock/Laws.antt =====
-- What the operations of a vector clock do to each counter, and how `Compare` sees them.
use mathlib.Core.List.{lookup}
use mathlib.Core.Path.{subst}
use dfs_go.Common.{
  ℕ, ◌+◌, ◌%◌, ◌^◌, ◌<◌, max, ◌≡◌, refl, String, [], ◌∷◌, ltb, none, some, string_discrete,
  contains, arith, ite, Bool-cases, false, inl, inr, ap, sym,
}
use dfs_go.Common.Assoc.{insert, keys, lookup-insert, lookup_absent, insert-IsDistinct}
use dfs_go.VClock.{
  VectorClock, Relation, before, after, concurrent, equal, IsClock, read, copy_into, copy, raise,
  increment, merge_into, merge, compare,
}
use dfs_go.VClock.Order.{Dominated, Relates, compare-Relates}

-- `m[k] = v`, read back.
pub read-insert :
    (k q : String) (v : ℕ) (vc : VectorClock)
    → read (insert string_discrete k v vc) q ≡ ite (string_discrete k q) v (read vc q)
unfolding read
read-insert k q v vc = ground (arith, lookup-insert string_discrete k q v vc)

lookup-copy_into :
    (c vc : VectorClock) (q : String)
    → IsClock vc
    → lookup string_discrete q (copy_into c vc)
      ≡ elim (lookup string_discrete q vc) [ some v ↦ some v | none ↦ lookup string_discrete q c ]
unfolding copy_into lookup contains
lookup-copy_into c [] q h = refl
lookup-copy_into c ((k, v) ∷ vc) q h = ground (
  arith,
  lookup-copy_into (insert string_discrete k v c) vc q,
  lookup-insert string_discrete k q v c,
  lookup_absent string_discrete k vc,
)

-- A copy reads like the original.
pub read-copy : (vc : VectorClock) (q : String) → IsClock vc → read (copy vc) q ≡ read vc q
unfolding copy read lookup
read-copy vc q h = ground (arith, lookup-copy_into [] vc q h)

copy_into-IsClock : (c vc : VectorClock) → IsClock c → IsClock (copy_into c vc)
unfolding copy_into
copy_into-IsClock c [] h = h
copy_into-IsClock c ((k, v) ∷ vc) h =
    copy_into-IsClock (insert string_discrete k v c) vc (insert-IsDistinct string_discrete k v c h)

pub copy-IsClock : (vc : VectorClock) → IsClock (copy vc)
unfolding copy
copy-IsClock vc = copy_into-IsClock [] vc tt

read-nil : (q : String) → read [] q ≡ 0
unfolding read lookup
read-nil q = refl

read-cons :
    (k q : String) (v : ℕ) (vc : VectorClock)
    → read ((k, v) ∷ vc) q ≡ ite (string_discrete k q) v (read vc q)
unfolding read lookup
read-cons k q v vc = ground arith

read_absent :
    (k : String) (vc : VectorClock) → contains string_discrete (keys vc) k ≡ false → read vc k ≡ 0
unfolding read
read_absent k vc h = rw (lookup_absent string_discrete k vc h)

read-raise :
    (r : VectorClock) (k q : String) (v : ℕ)
    → read (raise r k v) q ≡ ite (string_discrete k q) (max (read r q) v) (read r q)
unfolding raise
read-raise r k q v = elim (string_discrete k q) [
  | yes e ↦ ground (arith, read-insert k q v r, ap (read r) e)
  | no e ↦ ground (arith, read-insert k q v r)
]

read-merge_into :
    (r other : VectorClock) (q : String)
    → IsClock other
    → read (merge_into r other) q ≡ max (read r q) (read other q)
unfolding merge_into
read-merge_into r [] q h = omega (arith, read-nil q)
read-merge_into r ((k, v) ∷ other) q h = elim (string_discrete k q) [
  | yes e ↦ ground (
    arith,
    read-merge_into (raise r k v) other q,
    read-raise r k q v,
    read-cons k q v other,
    read_absent k other,
    ap (read other) e,
  )
  | no e ↦
      ground
        (arith, read-merge_into (raise r k v) other q, read-raise r k q v, read-cons k q v other)
]

-- Merge keeps, for every node, the larger of the two counters.
pub read-merge :
    (a b : VectorClock) (q : String)
    → IsClock a
    → IsClock b
    → read (merge a b) q ≡ max (read a q) (read b q)
unfolding merge
read-merge a b q ha hb = ground (arith, read-merge_into (copy a) b q, read-copy a q)

raise-IsClock : (r : VectorClock) (k : String) (v : ℕ) → IsClock r → IsClock (raise r k v)
unfolding raise
raise-IsClock r k v h = elim (Bool-cases (ltb (read r k) v)) [
  | inl e ↦ rw e (insert-IsDistinct string_discrete k v r h)
  | inr e ↦ rw e h
]

merge_into-IsClock : (r other : VectorClock) → IsClock r → IsClock (merge_into r other)
unfolding merge_into
merge_into-IsClock r [] h = h
merge_into-IsClock r ((k, v) ∷ other) h =
    merge_into-IsClock (raise r k v) other (raise-IsClock r k v h)

-- A merged clock is a map again: no node stands twice.
pub merge-IsClock : (a b : VectorClock) → IsClock (merge a b)
unfolding merge
merge-IsClock a b = merge_into-IsClock (copy a) b (copy-IsClock a)

-- Merge is the least upper bound of the two clocks in the causal order: it is above both, and
-- below every clock that is above both.
pub merge_lub :
    (a b c : VectorClock)
    → IsClock a
    → IsClock b
    → Dominated a (merge a b)
      × Dominated b (merge a b)
      × (Dominated a c → Dominated b c → Dominated (merge a b) c)
merge_lub a b c ha hb = (
  λ k. omega (arith, read-merge a b k ha hb),
  λ k. omega (arith, read-merge a b k ha hb),
  λ p q k. omega (arith, read-merge a b k ha hb, p k, q k),
)

read-increment :
    (vc : VectorClock) (node q : String)
    → IsClock vc
    → read (increment vc node) q
      ≡ ite (string_discrete node q) ((read vc node + 1) % 2 ^ 64) (read vc q)
unfolding increment
read-increment vc node q h = ground (
  arith,
  read-insert node q ((read (copy vc) node + 1) % 2 ^ 64) (copy vc),
  read-copy vc q,
  read-copy vc node,
)

-- The relations exclude one another, so what `Relates` says of two clocks is their verdict.
Relates-unique : (a b : VectorClock) (r s : Relation) → Relates r a b → Relates s a b → r ≡ s
Relates-unique a b before before p q = refl
Relates-unique a b before after p q = absurd (omega (arith, p.1.1, q.0 p.1.0))
Relates-unique a b before concurrent p q = absurd (omega (arith, q.1.1, p.0 q.1.0))
Relates-unique a b before equal p q = absurd (omega (arith, p.1.1, q p.1.0))
Relates-unique a b after before p q = absurd (omega (arith, p.1.1, q.0 p.1.0))
Relates-unique a b after after p q = refl
Relates-unique a b after concurrent p q = absurd (omega (arith, q.0.1, p.0 q.0.0))
Relates-unique a b after equal p q = absurd (omega (arith, p.1.1, q p.1.0))
Relates-unique a b concurrent before p q = absurd (omega (arith, p.1.1, q.0 p.1.0))
Relates-unique a b concurrent after p q = absurd (omega (arith, p.0.1, q.0 p.0.0))
Relates-unique a b concurrent concurrent p q = refl
Relates-unique a b concurrent equal p q = absurd (omega (arith, p.0.1, q p.0.0))
Relates-unique a b equal before p q = absurd (omega (arith, q.1.1, p q.1.0))
Relates-unique a b equal after p q = absurd (omega (arith, q.1.1, p q.1.0))
Relates-unique a b equal concurrent p q = absurd (omega (arith, q.0.1, p q.0.0))
Relates-unique a b equal equal p q = refl

-- The verdict of Compare is the relation that holds.
pub compare_of : (a b : VectorClock) (r : Relation) → Relates r a b → compare a b ≡ r
compare_of a b r h = Relates-unique a b (compare a b) r (compare-Relates a b) h

-- What the verdict says, from the equation.
pub Relates-of : (a b : VectorClock) (r : Relation) → compare a b ≡ r → Relates r a b
Relates-of a b r h = subst (λ s. Relates s a b) h (compare-Relates a b)

-- A write moves the writer's clock strictly forward: the old clock compares Before the new one,
-- unless the node's counter is at the top of uint64.
pub compare-increment :
    (vc : VectorClock) (node : String)
    → IsClock vc
    → read vc node + 1 < 2 ^ 64
    → compare vc (increment vc node) ≡ before
compare-increment vc node h top = compare_of vc (increment vc node) before (
  λ k. ground (arith, read-increment vc node k h, top, ap (read vc)),
  (node, ground (arith, read-increment vc node node h, top)),
)

-- Happened-before is transitive.
pub compare_trans :
    (a b c : VectorClock) → compare a b ≡ before → compare b c ≡ before → compare a c ≡ before
compare_trans a b c p q =
    let h = Relates-of a b before p in
    let k = Relates-of b c before q in
    compare_of a c before
      (λ n. omega (arith, h.0 n, k.0 n), (h.1.0, omega (arith, h.1.1, k.0 h.1.0)))

-- the verdict with the clocks swapped
abbrev pub mirror : Relation → Relation
mirror before = after
mirror after = before
mirror concurrent = concurrent
mirror equal = equal

-- Comparing in the other direction gives the mirrored verdict.
pub compare-mirror : (a b : VectorClock) → compare b a ≡ mirror (compare a b)
compare-mirror a b = flip (compare a b) refl
  where
    flip : (r : Relation) → compare a b ≡ r → compare b a ≡ mirror r
    flip before e = let h = Relates-of a b before e in compare_of b a after h
    flip after e = let h = Relates-of a b after e in compare_of b a before h
    flip concurrent e = let h = Relates-of a b concurrent e in compare_of b a concurrent (h.1, h.0)
    flip equal e = let h = Relates-of a b equal e in compare_of b a equal (λ k. sym (h k))
