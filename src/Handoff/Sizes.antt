-- ===== src/Handoff/Sizes.antt =====
-- The sizes that the loops of the hint store keep count of, in int64 without wrapping.
use mathlib.Core.List.{lookup}
use dfs_go.Common.{
  ℕ, ◌+◌, ◌^◌, ◌≤◌, ◌<◌, ◌≡◌, refl, ap, String, List, [], ◌∷◌, Bool, none, some, leb, ltb, length,
  total, select, string_discrete, arith, All, Bool-cases, inl, inr, leb→lt, if_pos, if_neg,
}
use dfs_go.Common.Assoc.{insert}
use dfs_go.Handoff.{Hint, add64, sub64, above64, retain, evict_oldest}

abbrev pub sizes : List Hint → ℕ
sizes hs = total (λ h. h.data_size) hs

-- all the hints of a store
abbrev pub all_sizes : List (String × List Hint) → ℕ
all_sizes m = total (λ e. sizes e.1) m

pub sub64_exact : (a b : ℕ) → b ≤ a → a < 2 ^ 63 → sub64 a b + b ≡ a
unfolding sub64
sub64_exact a b h k = omega arith

pub add64_exact : (a b : ℕ) → a + b < 2 ^ 63 → add64 a b ≡ a + b
unfolding add64
add64_exact a b h = omega arith

pub above64_exact : (a b : ℕ) → a < 2 ^ 63 → b < 2 ^ 63 → above64 a b ≡ ltb b a
unfolding above64
above64_exact a b h k = ground arith

pub retain-select :
    (keep : Hint → Bool) (t : ℕ) (hs : List Hint) → (retain keep t hs).0 ≡ select keep hs
unfolding retain select
retain-select keep t [] = refl
retain-select keep t (h ∷ hs) = elim (Bool-cases (keep h)) [
  | inl e ↦ rw e (ap (◌∷◌ h) (retain-select keep t hs))
  | inr e ↦ rw e (retain-select keep (sub64 t h.data_size) hs)
]

-- what is taken off is the size of the hints that go
pub retain-sizes :
    (keep : Hint → Bool) (t : ℕ) (hs : List Hint)
    → sizes hs ≤ t
    → t < 2 ^ 63
    → (retain keep t hs).1 + sizes hs ≡ t + sizes (select keep hs)
unfolding retain select total
retain-sizes keep t [] le lt = omega arith
retain-sizes keep t (h ∷ hs) le lt = elim (Bool-cases (keep h)) [
  | inl e ↦ rw e (omega (arith, retain-sizes keep t hs))
  | inr e ↦
      rw e (omega (arith, sub64_exact t h.data_size, retain-sizes keep (sub64 t h.data_size) hs))
]

pub evict_oldest-sizes :
    (most t : ℕ) (hs : List Hint)
    → sizes hs ≤ t
    → t < 2 ^ 63
    → (evict_oldest most t hs).1 + sizes hs ≡ t + sizes (evict_oldest most t hs).0
unfolding evict_oldest total
evict_oldest-sizes most t [] le lt = omega arith
evict_oldest-sizes most t (h ∷ hs) le lt = elim (Bool-cases (leb most (length (h ∷ hs)))) [
  | inl e ↦ rw e (omega (arith, sub64_exact t h.data_size))
  | inr e ↦ rw e (omega arith)
]

pub evict_oldest-le : (most t : ℕ) (hs : List Hint) → sizes (evict_oldest most t hs).0 ≤ sizes hs
unfolding evict_oldest total
evict_oldest-le most t [] = omega arith
evict_oldest-le most t (h ∷ hs) = elim (Bool-cases (leb most (length (h ∷ hs)))) [
  | inl e ↦ rw e (omega arith)
  | inr e ↦ rw e (omega arith)
]

pub evict_oldest-length :
    (most t : ℕ) (hs : List Hint)
    → 0 < most
    → length hs ≤ most
    → length (evict_oldest most t hs).0 < most
unfolding evict_oldest
evict_oldest-length most t [] lt le = omega arith
evict_oldest-length most t (h ∷ hs) lt le = elim (Bool-cases (leb most (length (h ∷ hs)))) [
  | inl e ↦ rw e (omega arith)
  | inr e ↦ rw e (omega (arith, leb→lt most (length (h ∷ hs)) e))
]

-- the hints under a key of the map
abbrev pub at : List (String × List Hint) → String → List Hint
at m addr = elim (lookup string_discrete addr m) [ none ↦ [] | some hs ↦ hs ]

pub all_sizes-insert :
    (addr : String) (hs : List Hint) (m : List (String × List Hint))
    → all_sizes (insert string_discrete addr hs m) + sizes (at m addr) ≡ all_sizes m + sizes hs
unfolding insert total lookup
all_sizes-insert addr hs [] = omega arith
all_sizes-insert addr hs ((j, gs) ∷ m) = elim (string_discrete addr j) [
  | yes e ↦ ground arith
  | no e ↦ ground (arith, all_sizes-insert addr hs m)
]

pub sizes-at-le : (m : List (String × List Hint)) (addr : String) → sizes (at m addr) ≤ all_sizes m
unfolding total lookup
sizes-at-le [] addr = omega arith
sizes-at-le ((j, gs) ∷ m) addr = elim (string_discrete addr j) [
  | yes e ↦ ground arith
  | no e ↦ ground (arith, sizes-at-le m addr)
]

module _ (most : ℕ) where
  -- no target has more hints than the cap
  abbrev pub IsCapped : List (String × List Hint) → Type 0
  IsCapped m = All (λ e. length e.1 ≤ most) m

  pub insert-IsCapped :
      (addr : String) (hs : List Hint) (m : List (String × List Hint))
      → IsCapped m
      → length hs ≤ most
      → IsCapped (insert string_discrete addr hs m)
  unfolding insert
  insert-IsCapped addr hs [] h le = (le, tt)
  insert-IsCapped addr hs ((j, gs) ∷ m) h le = elim (string_discrete addr j) [
    | yes e ↦ rw (if_pos (string_discrete addr j) e) (le, h.1)
    | no e ↦ rw (if_neg (string_discrete addr j) e) (h.0, insert-IsCapped addr hs m h.1 le)
  ]

  pub length-at :
      (m : List (String × List Hint)) (addr : String) → IsCapped m → length (at m addr) ≤ most
  unfolding lookup
  length-at [] addr h = omega arith
  length-at ((j, gs) ∷ m) addr h = elim (string_discrete addr j) [
    | yes e ↦ ground (arith, h.0)
    | no e ↦ ground (arith, length-at m addr h.1)
  ]
