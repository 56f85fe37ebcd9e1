-- ===== src/Common/Lists.antt =====
-- Slices as lists, measured and indexed by native numbers, under the library's names.
use Prim.Native.Nat.{ℕ, zero, suc, ◌+◌, ◌≤◌, ◌<◌}
use mathlib.Core.Path.{◌≡◌, refl, ap, sym, subst}
use mathlib.Core.List.{Mem, Memᴰ, mem-cons_self, mem-cons_of_mem}
use mathlib.Core.Logic.{∥∥₁_elim}
use mathlib.Core.Bool.{Bool, true, false}
use mathlib.Core.List.{List, [], ◌∷◌, ◌++◌, map}
use mathlib.Core.Option.{Option, none, some}
use mathlib.Core.Logic.{ite, inl, inr}
use native.Mathlib.Omega.{arith}
use dfs_go.Common.Tests.{if◌then◌else◌, Bool-cases, test}

module _ {ℓ} {A : Type ℓ} where
  abbrev pub length : List A → ℕ
  length [] = 0
  length (x ∷ xs) = suc (length xs)

  abbrev pub get_elem? : List A → ℕ → Option A
  get_elem? [] i = none
  get_elem? (x ∷ xs) zero = some x
  get_elem? (x ∷ xs) (suc i) = get_elem? xs i

  abbrev pub get_or : List A → ℕ → A → A
  get_or [] i d = d
  get_or (x ∷ xs) zero d = x
  get_or (x ∷ xs) (suc i) d = get_or xs i d

  abbrev pub drop : ℕ → List A → List A
  drop zero xs = xs
  drop (suc n) [] = []
  drop (suc n) (x ∷ xs) = drop n xs

  abbrev pub take : ℕ → List A → List A
  take zero xs = []
  take (suc n) [] = []
  take (suc n) (x ∷ xs) = x ∷ take n xs

  -- the entries that pass the test, in order
  unfoldable pub select : (A → Bool) → List A → List A
  select p [] = []
  select p (x ∷ xs) = if p x then x ∷ select p xs else select p xs

  -- the sum of a size over a list
  unfoldable pub total : (A → ℕ) → List A → ℕ
  total f [] = 0
  total f (x ∷ xs) = f x + total f xs

  -- some entry passes the test
  unfoldable pub any_of : (A → Bool) → List A → Bool
  any_of p [] = false
  any_of p (x ∷ xs) = if p x then true else any_of p xs

  pub length-append : (xs ys : List A) → length (xs ++ ys) ≡ length xs + length ys
  length-append [] ys = omega arith
  length-append (x ∷ xs) ys = omega (arith, length-append xs ys)

  pub total-append : (f : A → ℕ) (xs ys : List A) → total f (xs ++ ys) ≡ total f xs + total f ys
  unfolding total
  total-append f [] ys = omega arith
  total-append f (x ∷ xs) ys = omega (arith, total-append f xs ys)

  pub length-select-le : (p : A → Bool) (xs : List A) → length (select p xs) ≤ length xs
  unfolding select
  length-select-le p [] = omega arith
  length-select-le p (x ∷ xs) = ground (arith, length-select-le p xs)

  pub total-select-le :
      (f : A → ℕ) (p : A → Bool) (xs : List A) → total f (select p xs) ≤ total f xs
  unfolding total select
  total-select-le f p [] = omega arith
  total-select-le f p (x ∷ xs) = ground (arith, total-select-le f p xs)

  pub select-append :
      (p : A → Bool) (xs ys : List A) → select p (xs ++ ys) ≡ select p xs ++ select p ys
  unfolding select
  select-append p [] ys = refl
  select-append p (x ∷ xs) ys = ground (arith, select-append p xs ys)

  pub any_of-true : (p : A → Bool) (xs : List A) → any_of p xs ≡ true → (a : A) × (p a ≡ true)
  unfolding any_of
  any_of-true p [] h = absurd (ground arith)
  any_of-true p (x ∷ xs) h = elim (Bool-cases (p x)) [
    | inl e ↦ (x, e)
    | inr e ↦ any_of-true p xs (rw e at h)
  ]

-- Every entry satisfies the predicate; it computes to tuples.
abbrev pub All {ℓ κ} : {A : Type ℓ} → (A → Type κ) → List A → Type κ
All P [] = Unit
All P (x ∷ xs) = P x × All P xs

module _ {ℓ κ} {A : Type ℓ} (P : A → Type κ) where
  pub All-append : (xs ys : List A) → All P xs → All P ys → All P (xs ++ ys)
  All-append [] ys hx hy = hy
  All-append (x ∷ xs) ys hx hy = (hx.0, All-append xs ys hx.1 hy)

  pub All-select : (p : A → Bool) (xs : List A) → All P xs → All P (select p xs)
  unfolding select
  All-select p [] h = tt
  All-select p (x ∷ xs) h = elim (Bool-cases (p x)) [
    | inl e ↦ rw e (h.0, All-select p xs h.1)
    | inr e ↦ rw e (All-select p xs h.1)
  ]

pub All-map {ℓ κ κ'} :
    {A : Type ℓ} {P : A → Type κ} {Q : A → Type κ'}
    → ((a : A) → P a → Q a)
    → (xs : List A) → All P xs
    → All Q xs
All-map f [] h = tt
All-map f (x ∷ xs) h = (f x h.0, All-map f xs h.1)

-- Membership as a test, over entries with a decidable equality (`rebalance.contains`, a lookup in
-- a `map[string]bool` or `map[string]struct{}` used as a set).
module _ {ℓ} {A : Type ℓ} (dec : Discrete A) where
  unfoldable pub contains : List A → A → Bool
  contains [] a = false
  contains (x ∷ xs) a = ite (dec a x) true (contains xs a)

  -- no entry occurs twice
  abbrev pub IsDistinct : List A → Type 0
  IsDistinct [] = Unit
  IsDistinct (x ∷ xs) = (contains xs x ≡ false) × IsDistinct xs

  pub contains-append :
      (xs ys : List A) (a : A)
      → contains (xs ++ ys) a ≡ (if contains xs a then true else contains ys a)
  unfolding contains
  contains-append [] ys a = refl
  contains-append (x ∷ xs) ys a = ground (arith, contains-append xs ys a)

  pub contains-select :
      (p : A → Bool) (xs : List A) (a : A)
      → contains (select p xs) a ≡ (if p a then contains xs a else false)
  unfolding contains select
  contains-select p [] a = ground arith
  contains-select p (x ∷ xs) a = elim (dec a x) [
    | yes e ↦ ground (arith, contains-select p xs a, ap p e)
    | no e ↦ ground (arith, contains-select p xs a)
  ]

  pub any_of-false :
      (p : A → Bool) (xs : List A) (a : A)
      → any_of p xs ≡ false
      → contains xs a ≡ true
      → p a ≡ false
  unfolding any_of contains
  any_of-false p [] a h c = absurd (ground arith)
  any_of-false p (x ∷ xs) a h c = elim (dec a x) [
    | yes e ↦ ground (arith, ap p e)
    | no e ↦ ground (arith, any_of-false p xs a)
  ]

-- The library's membership against the predicate on all entries.
module _ {ℓ κ} {A : Type ℓ} (P : A → Type κ) where
  Memᴰ-of : (xs : List A) (a : A) → All P xs → Memᴰ a xs → P a
  Memᴰ-of [] a h m = elim m [ ]
  Memᴰ-of (x ∷ xs) a h (Memᴰ.head e) = subst P (sym e) h.0
  Memᴰ-of (x ∷ xs) a h (Memᴰ.tail m) = Memᴰ-of xs a h.1 m

  pub of_mem : (xs : List A) (a : A) → ((x : A) → IsProp (P x)) → All P xs → Mem a xs → P a
  of_mem xs a prop h m = ∥∥₁_elim m (prop a) (Memᴰ-of xs a h)

  pub All-of : (xs : List A) → ((a : A) → Mem a xs → P a) → All P xs
  All-of [] h = tt
  All-of (x ∷ xs) h = (h x mem-cons_self, All-of xs (λ a m. h a (mem-cons_of_mem x m)))

module _ {A : Type 0} (dec : Discrete A) (p : A → Bool) where
  pub select_all :
      (xs : List A) → ((a : A) → contains dec xs a ≡ true → p a ≡ true) → select p xs ≡ xs
  unfolding select contains
  select_all [] h = refl
  select_all (x ∷ xs) h = ground (arith, h x, select_all xs (λ a m. h a (ground (arith, m))))

  pub select_none :
      (xs : List A) → ((a : A) → contains dec xs a ≡ true → p a ≡ false) → select p xs ≡ []
  unfolding select contains
  select_none [] h = refl
  select_none (x ∷ xs) h = ground (arith, h x, select_none xs (λ a m. h a (ground (arith, m))))

-- Lists without repetitions, compared by their entries.
module _ {A : Type 0} (dec : Discrete A) where
  pub IsDistinct-snoc :
      (xs : List A) (a : A)
      → IsDistinct dec xs
      → contains dec xs a ≡ false
      → IsDistinct dec (xs ++ a ∷ [])
  unfolding contains
  IsDistinct-snoc [] a d c = (refl, tt)
  IsDistinct-snoc (x ∷ xs) a d c = (
    ground (arith, contains-append dec xs (a ∷ []) x, d.0),
    IsDistinct-snoc xs a d.1 (ground (arith, c)),
  )

  -- the entries other than `a`
  abbrev others : A → List A → List A
  others a xs = select (λ x. if test (dec x a) then false else true) xs

  length-others :
      (a : A) (xs : List A) → contains dec xs a ≡ true → length (others a xs) < length xs
  unfolding contains select
  length-others a [] c = absurd (ground arith)
  length-others a (x ∷ xs) c =
      ground (
        arith,
        length-others a xs,
        length-select-le (λ x. if test (dec x a) then false else true) xs,
      )

  -- A list without repetitions is no longer than one that holds its entries.
  pub length-le_of_contains :
      (xs ys : List A)
      → IsDistinct dec xs
      → ((a : A) → contains dec xs a ≡ true → contains dec ys a ≡ true)
      → length xs ≤ length ys
  unfolding contains
  length-le_of_contains [] ys d h = omega arith
  length-le_of_contains (x ∷ xs) ys d h = omega (
    arith,
    length-others x ys (h x (ground arith)),
    length-le_of_contains xs (others x ys) d.1 (λ a m. ground (
      arith,
      contains-select dec (λ y. if test (dec y x) then false else true) ys a,
      h a (ground (arith, m)),
      m,
      d.0,
      ap (contains dec xs),
    )),
  )

  -- an entry stands at some index
  pub index_of_contains :
      (xs : List A) (a d : A)
      → contains dec xs a ≡ true
      → (i : ℕ) × (i < length xs) × (get_or xs i d ≡ a)
  unfolding contains
  index_of_contains [] a d c = absurd (ground arith)
  index_of_contains (x ∷ xs) a d c = elim (dec a x) [
    | yes e ↦ (0, omega arith, sym e)
    | no e ↦
        let (i, lt, at) = index_of_contains xs a d (ground (arith, c)) in (suc i, omega arith, at)
  ]

  pub contains-get_or :
      (xs : List A) (i : ℕ) (d : A) → i < length xs → contains dec xs (get_or xs i d) ≡ true
  unfolding contains
  contains-get_or [] i d lt = absurd (omega arith)
  contains-get_or (x ∷ xs) zero d lt = ground arith
  contains-get_or (x ∷ xs) (suc i) d lt = ground (arith, contains-get_or xs i d (omega arith))

pub length-map {ℓ κ} :
    {A : Type ℓ} {B : Type κ} (f : A → B) (xs : List A) → length (map f xs) ≡ length xs
length-map f [] = refl
length-map f (x ∷ xs) = ap suc (length-map f xs)
