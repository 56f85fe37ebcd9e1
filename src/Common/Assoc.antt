-- ===== src/Common/Assoc.antt =====
-- Go maps as association lists in some iteration order; the library's `lookup` reads them.
-- A theorem that ranges over all lists holds of every iteration order.
use mathlib.Core.Path.{◌≡◌, refl}
use mathlib.Core.Bool.{true, false}
use mathlib.Core.List.{List, [], ◌∷◌, map, lookup}
use mathlib.Core.Option.{none, some}
use mathlib.Core.Logic.{ite}
use native.Mathlib.Omega.{arith}
use dfs_go.Common.Lists.{contains, IsDistinct}

module _ {ℓ κ} {K : Type ℓ} {V : Type κ} where
  abbrev pub keys : List (K × V) → List K
  keys m = map (λ e. e.0) m

module _ {ℓ} {K V : Type ℓ} (dec : Discrete K) where
  -- `m[k] = v`
  unfoldable pub insert : K → V → List (K × V) → List (K × V)
  insert k v [] = (k, v) ∷ []
  insert k v ((j, w) ∷ m) = ite (dec k j) ((k, v) ∷ m) ((j, w) ∷ insert k v m)

  -- `delete(m, k)`
  unfoldable pub delete : K → List (K × V) → List (K × V)
  delete k [] = []
  delete k ((j, w) ∷ m) = ite (dec k j) (delete k m) ((j, w) ∷ delete k m)

  pub lookup-insert :
      (k q : K) (v : V) (m : List (K × V))
      → lookup dec q (insert k v m) ≡ ite (dec k q) (some v) (lookup dec q m)
  unfolding lookup insert
  lookup-insert k q v [] = ground arith
  lookup-insert k q v ((j, w) ∷ m) = ground (arith, lookup-insert k q v m)

  pub lookup-delete :
      (k q : K) (m : List (K × V)) → lookup dec q (delete k m) ≡ ite (dec k q) none (lookup dec q m)
  unfolding lookup delete
  lookup-delete k q [] = ground arith
  lookup-delete k q ((j, w) ∷ m) = ground (arith, lookup-delete k q m)

-- Keys as a set. (A test and a lookup branch at one universe level here.)
module _ {K V : Type 0} (dec : Discrete K) where
  -- A key of the map is one that a lookup finds.
  pub contains-keys :
      (k : K) (m : List (K × V)) (v : V) → lookup dec k m ≡ some v → contains dec (keys m) k ≡ true
  unfolding lookup contains
  contains-keys k [] v h = cc
  contains-keys k ((j, w) ∷ m) v h = ground (arith, contains-keys k m v)

  pub lookup_absent :
      (k : K) (m : List (K × V)) → contains dec (keys m) k ≡ false → lookup dec k m ≡ none
  unfolding lookup contains
  lookup_absent k [] h = refl
  lookup_absent k ((j, w) ∷ m) h = ground (arith, lookup_absent k m)

  pub lookup_of_key :
      (k : K) (m : List (K × V))
      → contains dec (keys m) k ≡ true
      → (v : V) × (lookup dec k m ≡ some v)
  unfolding lookup contains
  lookup_of_key k [] h = absurd (ground arith)
  lookup_of_key k ((j, w) ∷ m) h = elim (dec k j) [
    | yes e ↦ (w, ground arith)
    | no e ↦ let (v, at) = lookup_of_key k m (ground (arith, h)) in (v, ground arith)
  ]

  pub contains-keys-insert :
      (k q : K) (v : V) (m : List (K × V))
      → contains dec (keys (insert dec k v m)) q ≡ ite (dec k q) true (contains dec (keys m) q)
  unfolding insert contains
  contains-keys-insert k q v [] = ground arith
  contains-keys-insert k q v ((j, w) ∷ m) = ground (arith, contains-keys-insert k q v m)

  pub contains-keys-delete :
      (k q : K) (m : List (K × V))
      → contains dec (keys (delete dec k m)) q ≡ ite (dec k q) false (contains dec (keys m) q)
  unfolding delete contains
  contains-keys-delete k q [] = ground arith
  contains-keys-delete k q ((j, w) ∷ m) = ground (arith, contains-keys-delete k q m)

  pub insert-IsDistinct :
      (k : K) (v : V) (m : List (K × V))
      → IsDistinct dec (keys m)
      → IsDistinct dec (keys (insert dec k v m))
  unfolding insert contains
  insert-IsDistinct k v [] h = ground arith
  insert-IsDistinct k v ((j, w) ∷ m) h =
      ground (arith, insert-IsDistinct k v m, contains-keys-insert k j v m)

  pub delete-IsDistinct :
      (k : K) (m : List (K × V)) → IsDistinct dec (keys m) → IsDistinct dec (keys (delete dec k m))
  unfolding delete contains
  delete-IsDistinct k [] h = tt
  delete-IsDistinct k ((j, w) ∷ m) h =
      ground (arith, delete-IsDistinct k m, contains-keys-delete k j m)
