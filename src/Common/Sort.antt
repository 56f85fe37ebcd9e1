-- ===== src/Common/Sort.antt =====
-- `sort.Slice` and `sort.Strings`: an insertion sort by a test `le`, one of the orders that the
-- documentation of Go's `sort` allows.
use dfs_go.Common.Tests.{if◌then◌else◌, Bool-cases}
use dfs_go.Common.Lists.{length, contains, select, All, All-select}
use Prim.Native.Nat.{suc}
use mathlib.Core.Path.{◌≡◌, refl, ap, ap₂, ◌∙◌}
use mathlib.Core.Bool.{Bool, true, false}
use mathlib.Core.Logic.{inl, inr, ite, ∥∥₁_elim}
use mathlib.Core.List.{List, [], ◌∷◌}
use mathlib.Core.List.{Perm, Permᴰ}
use mathlib.Core.List.Perm
use native.Mathlib.Omega.{arith}

module _ {ℓ} {A : Type ℓ} (le : A → A → Bool) where
  unfoldable pub insert_by : A → List A → List A
  insert_by x [] = x ∷ []
  insert_by x (y ∷ ys) = if le x y then x ∷ y ∷ ys else y ∷ insert_by x ys

  unfoldable pub sort_by : List A → List A
  sort_by [] = []
  sort_by (x ∷ xs) = insert_by x (sort_by xs)

  -- every entry is at most every later one
  abbrev pub IsSortedBy : List A → Type ℓ
  IsSortedBy [] = Unit
  IsSortedBy (x ∷ xs) = All (λ y. le x y ≡ true) xs × IsSortedBy xs

  insert_by-perm : (x : A) (xs : List A) → Perm (insert_by x xs) (x ∷ xs)
  unfolding insert_by
  insert_by-perm x [] = Perm.refl (x ∷ [])
  insert_by-perm x (y ∷ ys) = elim (Bool-cases (le x y)) [
    | inl e ↦ rw e (Perm.refl _)
    | inr e ↦ rw e (Perm.trans (Perm.cons y (insert_by-perm x ys)) (Perm.swap x y ys))
  ]

  pub sort_by-perm : (xs : List A) → Perm (sort_by xs) xs
  unfolding sort_by
  sort_by-perm [] = Perm.refl []
  sort_by-perm (x ∷ xs) = Perm.trans (insert_by-perm x (sort_by xs)) (Perm.cons x (sort_by-perm xs))

  length-insert_by : (x : A) (xs : List A) → length (insert_by x xs) ≡ suc (length xs)
  unfolding insert_by
  length-insert_by x [] = refl
  length-insert_by x (y ∷ ys) = ground (arith, length-insert_by x ys)

  pub length-sort_by : (xs : List A) → length (sort_by xs) ≡ length xs
  unfolding sort_by
  length-sort_by [] = refl
  length-sort_by (x ∷ xs) = length-insert_by x (sort_by xs) ∙ ap suc (length-sort_by xs)

  All-insert_by {κ} :
      (P : A → Type κ) (x : A) (xs : List A) → P x → All P xs → All P (insert_by x xs)
  unfolding insert_by
  All-insert_by P x [] p h = (p, tt)
  All-insert_by P x (y ∷ ys) p h = elim (Bool-cases (le x y)) [
    | inl e ↦ rw e (p, h)
    | inr e ↦ rw e (h.0, All-insert_by P x ys p h.1)
  ]

  pub All-sort_by {κ} : (P : A → Type κ) (xs : List A) → All P xs → All P (sort_by xs)
  unfolding sort_by
  All-sort_by P [] h = tt
  All-sort_by P (x ∷ xs) h = All-insert_by P x (sort_by xs) h.0 (All-sort_by P xs h.1)

module _ {A : Type 0} (le : A → A → Bool) (dec : Discrete A) where
  contains-insert_by :
      (x : A) (xs : List A) (a : A)
      → contains dec (insert_by le x xs) a ≡ ite (dec a x) true (contains dec xs a)
  unfolding insert_by contains
  contains-insert_by x [] a = refl
  contains-insert_by x (y ∷ ys) a = ground (arith, contains-insert_by x ys a)

  pub contains-sort_by : (xs : List A) (a : A) → contains dec (sort_by le xs) a ≡ contains dec xs a
  unfolding sort_by contains
  contains-sort_by [] a = refl
  contains-sort_by (x ∷ xs) a = rw (contains-insert_by x (sort_by le xs) a, contains-sort_by xs a)

-- The test decides a total order.
pub record IsTotal {ℓ} {A : Type ℓ} (le : A → A → Bool) : Type ℓ where
  pub total : (a b : A) → le a b ≡ false → le b a ≡ true
  pub trans : (a b c : A) → le a b ≡ true → le b c ≡ true → le a c ≡ true
  pub antisymm : (a b : A) → le a b ≡ true → le b a ≡ true → a ≡ b

module _ {A : Type 0} (le : A → A → Bool) (order : IsTotal le) where
  All-le :
      (x y : A) (ys : List A)
      → le x y ≡ true
      → All (λ z. le y z ≡ true) ys
      → All (λ z. le x z ≡ true) ys
  All-le x y [] e h = tt
  All-le x y (z ∷ zs) e h = (order.trans x y z e h.0, All-le x y zs e h.1)

  insert_by-IsSortedBy :
      (x : A) (xs : List A) → IsSortedBy le xs → IsSortedBy le (insert_by le x xs)
  unfolding insert_by
  insert_by-IsSortedBy x [] h = (tt, tt)
  insert_by-IsSortedBy x (y ∷ ys) h = elim (Bool-cases (le x y)) [
    | inl e ↦ rw e ((e, All-le x y ys e h.0), h)
    | inr e ↦ rw e (
      All-insert_by le (λ z. le y z ≡ true) x ys (order.total x y e) h.0,
      insert_by-IsSortedBy x ys h.1,
    )
  ]

  pub sort_by-IsSortedBy : (xs : List A) → IsSortedBy le (sort_by le xs)
  unfolding sort_by
  sort_by-IsSortedBy [] = tt
  sort_by-IsSortedBy (x ∷ xs) = insert_by-IsSortedBy x (sort_by le xs) (sort_by-IsSortedBy xs)

  insert_front : (x : A) (xs : List A) → All (λ z. le x z ≡ true) xs → insert_by le x xs ≡ x ∷ xs
  unfolding insert_by
  insert_front x [] h = refl
  insert_front x (y ∷ ys) h = rw h.0

  -- sorting a sorted list changes nothing
  pub sort_by_sorted : (xs : List A) → IsSortedBy le xs → sort_by le xs ≡ xs
  unfolding sort_by
  sort_by_sorted [] h = refl
  sort_by_sorted (x ∷ xs) h = rw (sort_by_sorted xs h.1) (insert_front x xs h.0)

  select_insert_in :
      (p : A → Bool) (x : A) (xs : List A)
      → IsSortedBy le xs
      → p x ≡ true
      → select p (insert_by le x xs) ≡ insert_by le x (select p xs)
  unfolding insert_by select
  select_insert_in p x [] h e = rw e
  select_insert_in p x (y ∷ ys) h e = elim (Bool-cases (le x y)) [
    | inl low ↦
        let kept = All-select (λ z. le x z ≡ true) p ys (All-le x y ys low h.0) in
        ground (arith, low, e, insert_front x (select p ys) kept)
    | inr high ↦ ground (arith, high, select_insert_in p x ys h.1 e)
  ]

  select_insert_out :
      (p : A → Bool) (x : A) (xs : List A)
      → p x ≡ false
      → select p (insert_by le x xs) ≡ select p xs
  unfolding insert_by select
  select_insert_out p x [] e = rw e
  select_insert_out p x (y ∷ ys) e = ground (arith, select_insert_out p x ys e)

  -- filtering and sorting commute
  pub select-sort_by :
      (p : A → Bool) (xs : List A) → select p (sort_by le xs) ≡ sort_by le (select p xs)
  unfolding sort_by select
  select-sort_by p [] = refl
  select-sort_by p (x ∷ xs) = elim (Bool-cases (p x)) [
    | inl e ↦ rw e (
        select_insert_in p x (sort_by le xs) (sort_by-IsSortedBy xs) e
        ∙ ap (insert_by le x) (select-sort_by p xs))
    | inr e ↦ rw e (select_insert_out p x (sort_by le xs) e ∙ select-sort_by p xs)
  ]

  insert_insert :
      (x y : A) (xs : List A)
      → insert_by le x (insert_by le y xs) ≡ insert_by le y (insert_by le x xs)
  unfolding insert_by
  insert_insert x y [] = ground (arith, order.total x y, order.total y x, order.antisymm x y)
  insert_insert x y (z ∷ zs) = ground (
    arith,
    order.total x y,
    order.total y x,
    order.antisymm x y,
    order.trans x y z,
    order.trans y x z,
    insert_insert x y zs,
  )

  sort_by-Permᴰ : {xs ys : List A} → Permᴰ xs ys → sort_by le xs ≡ sort_by le ys
  unfolding sort_by
  sort_by-Permᴰ Permᴰ.nil = refl
  sort_by-Permᴰ (Permᴰ.cons {l₁ = xs} e p) =
      ap (λ a. insert_by le a (sort_by le xs)) e ∙ ap (insert_by le _) (sort_by-Permᴰ p)
  sort_by-Permᴰ (Permᴰ.swap {a = a} {b = b} {l = l} e f) =
      insert_insert a b (sort_by le l)
      ∙ ap₂ (λ x y. insert_by le x (insert_by le y (sort_by le l))) f e
  sort_by-Permᴰ (Permᴰ.trans p q) = sort_by-Permᴰ p ∙ sort_by-Permᴰ q

  -- sorting forgets the order that the list came in
  pub sort_by_perm_eq :
      IsSet (List A) → {xs ys : List A} → Perm xs ys → sort_by le xs ≡ sort_by le ys
  sort_by_perm_eq set p = ∥∥₁_elim p (set _ _) sort_by-Permᴰ

module _ {ℓ} {A : Type ℓ} (le : A → A → Bool) where
  pub select-IsSortedBy :
      (p : A → Bool) (xs : List A) → IsSortedBy le xs → IsSortedBy le (select p xs)
  unfolding select
  select-IsSortedBy p [] h = tt
  select-IsSortedBy p (x ∷ xs) h = elim (Bool-cases (p x)) [
    | inl e ↦ rw e (All-select (λ y. le x y ≡ true) p xs h.0, select-IsSortedBy p xs h.1)
    | inr e ↦ rw e (select-IsSortedBy p xs h.1)
  ]
