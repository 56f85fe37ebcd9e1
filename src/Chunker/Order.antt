-- ===== src/Chunker/Order.antt =====
-- Reassemble of Storage/chunker/chunker.go on chunks that arrive in any order.
use dfs_go.Common.{ℕ, suc, ◌+◌, ◌≤◌, ◌<◌, true, false, some, All, ◌≡◌, refl, sym, ap, ◌∙◌, arith}
use dfs_go.Common.{none, List, [], ◌∷◌, leb, ◌==◌, ltb, ◌&&◌, length, map}
use dfs_go.Common.{contains, IsDistinct, ℕ_discrete, Bool-cases, inl, inr}
use dfs_go.Common.Sort.{insert_by, sort_by, IsSortedBy}
use dfs_go.Chunker.{Chunk, earlier, first_gap}
use dfs_go.Chunker.Parts.{IsRun}
use mathlib.Core.List.{Permᴰ}
use mathlib.Core.Path.{subst, ap₂}

abbrev pub indexes : List Chunk → List ℕ
indexes cs = map (λ c. c.index) cs

-- Chunks of different indexes are sorted alike, however they come in.
insert_insert :
    (a b : Chunk) (cs : List Chunk)
    → ¬ (a.index ≡ b.index)
    → insert_by earlier a (insert_by earlier b cs) ≡ insert_by earlier b (insert_by earlier a cs)
unfolding insert_by
insert_insert a b [] ne = ground arith
insert_insert a b (c ∷ cs) ne = ground (arith, insert_insert a b cs ne)

pub contains-indexes :
    {xs ys : List Chunk}
    → Permᴰ xs ys
    → (k : ℕ) → contains ℕ_discrete (indexes xs) k ≡ contains ℕ_discrete (indexes ys) k
unfolding contains
contains-indexes Permᴰ.nil k = refl
contains-indexes (Permᴰ.cons e p) k =
    ground (arith, ap (λ (c : Chunk). c.index) e, contains-indexes p k)
contains-indexes (Permᴰ.swap e f) k =
    ground (arith, ap (λ (c : Chunk). c.index) e, ap (λ (c : Chunk). c.index) f)
contains-indexes (Permᴰ.trans p q) k = contains-indexes p k ∙ contains-indexes q k

IsDistinct-swap :
    (i j : ℕ) (ks : List ℕ)
    → IsDistinct ℕ_discrete (i ∷ j ∷ ks)
    → IsDistinct ℕ_discrete (j ∷ i ∷ ks)
unfolding contains
IsDistinct-swap i j ks d = ground (arith, d.0, d.1.0, d.1.1)

IsDistinct-ne : (i j : ℕ) (ks : List ℕ) → IsDistinct ℕ_discrete (i ∷ j ∷ ks) → ¬ (i ≡ j)
unfolding contains
IsDistinct-ne i j ks d e = ground (arith, d.0)

pub IsDistinct-indexes :
    {xs ys : List Chunk}
    → Permᴰ xs ys
    → IsDistinct ℕ_discrete (indexes xs)
    → IsDistinct ℕ_discrete (indexes ys)
unfolding contains
IsDistinct-indexes Permᴰ.nil d = tt
IsDistinct-indexes (Permᴰ.cons {a = a} {l₂ = ys} e p) d = (
  ap (contains ℕ_discrete (indexes ys)) (sym (ap (λ (c : Chunk). c.index) e))
      ∙ sym (contains-indexes p a.index)
      ∙ d.0,
  IsDistinct-indexes p d.1,
)
IsDistinct-indexes (Permᴰ.swap {a = a} {b = b} {b' = b'} {l = l} e f) d =
    subst (λ x. IsDistinct ℕ_discrete (indexes (x ∷ b' ∷ l))) f
      (subst (λ y. IsDistinct ℕ_discrete (indexes (b ∷ y ∷ l))) e
        (IsDistinct-swap a.index b.index (indexes l) d))
IsDistinct-indexes (Permᴰ.trans p q) d = IsDistinct-indexes q (IsDistinct-indexes p d)

pub sort_by-indexes :
    {xs ys : List Chunk}
    → Permᴰ xs ys
    → IsDistinct ℕ_discrete (indexes xs)
    → sort_by earlier xs ≡ sort_by earlier ys
unfolding sort_by contains
sort_by-indexes Permᴰ.nil d = refl
sort_by-indexes (Permᴰ.cons {l₁ = xs} e p) d =
    ap (λ a. insert_by earlier a (sort_by earlier xs)) e
    ∙ ap (insert_by earlier _) (sort_by-indexes p d.1)
sort_by-indexes (Permᴰ.swap {a = a} {b = b} {l = l} e f) d =
    insert_insert a b (sort_by earlier l) (IsDistinct-ne a.index b.index (indexes l) d)
    ∙ ap₂ (λ x y. insert_by earlier x (insert_by earlier y (sort_by earlier l))) f e
sort_by-indexes (Permᴰ.trans p q) d =
    sort_by-indexes p d ∙ sort_by-indexes q (IsDistinct-indexes p d)

-- A run has one chunk of each index from its first on.
pub IsRun-contains :
    (i : ℕ) (cs : List Chunk) (k : ℕ)
    → IsRun i cs
    → contains ℕ_discrete (indexes cs) k ≡ leb i k && ltb k (i + length cs)
unfolding contains
IsRun-contains i [] k r = ground arith
IsRun-contains i (c ∷ cs) k r = ground (arith, IsRun-contains (suc i) cs k r.1, r.0)

pub IsRun-IsDistinct : (i : ℕ) (cs : List Chunk) → IsRun i cs → IsDistinct ℕ_discrete (indexes cs)
IsRun-IsDistinct i [] r = tt
IsRun-IsDistinct i (c ∷ cs) r =
    (IsRun-contains (suc i) cs c.index r.1 ∙ ground (arith, r.0), IsRun-IsDistinct (suc i) cs r.1)

-- A run is in order, and has no gap.
pub sort_by-IsRun : (i : ℕ) (cs : List Chunk) → IsRun i cs → sort_by earlier cs ≡ cs
unfolding sort_by insert_by
sort_by-IsRun i [] r = refl
sort_by-IsRun i (c ∷ []) r = refl
sort_by-IsRun i (c ∷ d ∷ cs) r =
    ap (insert_by earlier c) (sort_by-IsRun (suc i) (d ∷ cs) r.1) ∙ ground (arith, r.0, r.1.0)

pub first_gap-IsRun : (i : ℕ) (cs : List Chunk) → IsRun i cs → first_gap i cs ≡ none
unfolding first_gap
first_gap-IsRun i [] r = refl
first_gap-IsRun i (c ∷ cs) r = ground (arith, first_gap-IsRun (suc i) cs r.1, r.0)

pub IsRun-first_gap : (i : ℕ) (cs : List Chunk) → first_gap i cs ≡ none → IsRun i cs
unfolding first_gap
IsRun-first_gap i [] h = tt
IsRun-first_gap i (c ∷ cs) h = elim (Bool-cases (c.index == i)) [
  | inl e ↦ (ground (arith, e), IsRun-first_gap (suc i) cs (rw e at h))
  | inr e ↦ absurd (ground (arith, e, h))
]

insert_by-indexes :
    (c : Chunk) (cs : List Chunk)
    → indexes (insert_by earlier c cs) ≡ insert_by leb c.index (indexes cs)
unfolding insert_by
insert_by-indexes c [] = refl
insert_by-indexes c (d ∷ cs) = ground (arith, insert_by-indexes c cs)

pub indexes-sort_by : (cs : List Chunk) → indexes (sort_by earlier cs) ≡ sort_by leb (indexes cs)
unfolding sort_by
indexes-sort_by [] = refl
indexes-sort_by (c ∷ cs) =
    insert_by-indexes c (sort_by earlier cs) ∙ ap (insert_by leb c.index) (indexes-sort_by cs)

above_absent : (n : ℕ) (ks : List ℕ) → All (λ j. suc n ≤ j) ks → contains ℕ_discrete ks n ≡ false
unfolding contains
above_absent n [] h = refl
above_absent n (k ∷ ks) h = ground (arith, h.0, above_absent n ks h.1)

All-next :
    (n : ℕ) (ks : List ℕ)
    → All (λ j. leb n j ≡ true) ks
    → contains ℕ_discrete ks n ≡ false
    → All (λ j. suc n ≤ j) ks
unfolding contains
All-next n [] h c = tt
All-next n (k ∷ ks) h c = (ground (arith, h.0, c), All-next n ks h.1 (ground (arith, c)))

All-above : (n k : ℕ) (ks : List ℕ) → n ≤ k → All (λ j. leb k j ≡ true) ks → All (λ j. n ≤ j) ks
All-above n k [] le h = tt
All-above n k (j ∷ ks) le h = (ground (arith, h.0, le), All-above n k ks le h.1)

absent_past :
    (j k : ℕ) (ks : List ℕ)
    → j < k
    → contains ℕ_discrete ks k ≡ false
    → contains ℕ_discrete (j ∷ ks) k ≡ false
unfolding contains
absent_past j k ks lt c = ground (arith, lt, c)

-- Every index below the first gap is there.
pub first_gap-present :
    (n : ℕ) (cs : List Chunk) (k j : ℕ)
    → first_gap n cs ≡ some k
    → n ≤ j
    → j < k
    → contains ℕ_discrete (indexes cs) j ≡ true
unfolding first_gap contains
first_gap-present n [] k j e le lt = absurd cc
first_gap-present n (c ∷ cs) k j e le lt = elim (Bool-cases (c.index == n)) [
  | inl here ↦ elim (ℕ_discrete j n) [
    | yes same ↦ ground (arith, here, same)
    | no ne ↦
        let rest = first_gap-present (suc n) cs k j (rw here at e) (omega arith) lt in
        ground (arith, rest)
  ]
  | inr gap ↦ absurd (ground (arith, gap, e))
]

-- The first gap of sorted chunks of different indexes is not the index of any of them.
pub first_gap-absent :
    (n : ℕ) (cs : List Chunk) (k : ℕ)
    → All (λ j. n ≤ j) (indexes cs)
    → IsSortedBy leb (indexes cs)
    → IsDistinct ℕ_discrete (indexes cs)
    → first_gap n cs ≡ some k
    → (n ≤ k) × (contains ℕ_discrete (indexes cs) k ≡ false)
unfolding first_gap
first_gap-absent n [] k low sorted d e = absurd cc
first_gap-absent n (c ∷ cs) k low sorted d e = elim (Bool-cases (c.index == n)) [
  | inl here ↦
      let (le, absent) = first_gap-absent (suc n) cs k (next here) sorted.1 d.1 (rw here at e) in
      (omega arith, absent_past c.index k (indexes cs) (ground (arith, here, le)) absent)
  | inr gap ↦
      let same : n ≡ k = ground (arith, gap, e) in
      (
        omega arith,
        ap (contains ℕ_discrete (indexes (c ∷ cs))) (sym same)
            ∙ above_absent n (indexes (c ∷ cs))
                (later gap, All-above (suc n) c.index (indexes cs) (later gap) sorted.0),
      )
]
  where
    later : (c.index == n) ≡ false → suc n ≤ c.index
    later gap = ground (arith, gap, low.0)

    next : (c.index == n) ≡ true → All (λ j. suc n ≤ j) (indexes cs)
    next here =
        subst (λ m. All (λ j. suc m ≤ j) (indexes cs)) (ground (arith, here))
          (All-next c.index (indexes cs) sorted.0 d.0)
