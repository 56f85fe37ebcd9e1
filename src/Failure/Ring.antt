-- ===== src/Failure/Ring.antt =====
-- The ring of intervals of Cluster/failure/detector.go as a list: what a write at the head does to
-- the entries from the oldest on.
use dfs_go.Common.{ℕ, zero, suc, ◌+◌, ◌-◌, ◌%◌, ◌<◌, ◌≤◌, ◌≡◌, refl, sym, ap, ◌∙◌, arith}
use dfs_go.Common.{List, [], ◌∷◌, ◌++◌, length, take, drop}
use dfs_go.Common.{length-append, inl, inr, ◌⊎◌}
use dfs_go.Failure.{set, zeros}
use native.Mathlib.Decide.{dec_lt}
use mathlib.Core.List.{append_assoc, append-nil}
use native.Mathlib.Nat.{mod-eq_of_lt, mod_self}

-- The intervals held, oldest first.
abbrev pub contents_of : List ℕ → ℕ → ℕ → List ℕ
contents_of xs head count = drop head (take count xs) ++ take head xs

-- the last `n` entries
abbrev pub latest : ℕ → List ℕ → List ℕ
latest n xs = drop (length xs - n) xs

pub length-zeros : (n : ℕ) → length (zeros n) ≡ n
length-zeros zero = refl
length-zeros (suc n) = ap suc (length-zeros n)

pub length-set : (xs : List ℕ) (i x : ℕ) → length (set xs i x) ≡ length xs
length-set [] i x = refl
length-set (y ∷ ys) zero x = refl
length-set (y ∷ ys) (suc i) x = ap suc (length-set ys i x)

take-set :
    (xs : List ℕ) (i x : ℕ) → i < length xs → take (suc i) (set xs i x) ≡ take i xs ++ (x ∷ [])
take-set [] i x h = absurd (omega arith)
take-set (y ∷ ys) zero x h = refl
take-set (y ∷ ys) (suc i) x h = ap (◌∷◌ y) (take-set ys i x (omega arith))

drop-set : (xs : List ℕ) (i x : ℕ) → drop (suc i) (set xs i x) ≡ drop (suc i) xs
drop-set [] i x = refl
drop-set (y ∷ ys) zero x = refl
drop-set (y ∷ ys) (suc i) x = drop-set ys i x

take_all : (xs : List ℕ) (n : ℕ) → length xs ≤ n → take n xs ≡ xs
take_all [] zero h = refl
take_all [] (suc n) h = refl
take_all (x ∷ xs) zero h = absurd (omega arith)
take_all (x ∷ xs) (suc n) h = ap (◌∷◌ x) (take_all xs n (omega arith))

drop_all : (xs : List ℕ) (n : ℕ) → length xs ≤ n → drop n xs ≡ []
drop_all [] zero h = refl
drop_all [] (suc n) h = refl
drop_all (x ∷ xs) zero h = absurd (omega arith)
drop_all (x ∷ xs) (suc n) h = drop_all xs n (omega arith)

drop-take : (xs : List ℕ) (n : ℕ) → drop n (take n xs) ≡ []
drop-take xs zero = refl
drop-take [] (suc n) = refl
drop-take (x ∷ xs) (suc n) = drop-take xs n

drop-append : (xs ys : List ℕ) (n : ℕ) → n ≤ length xs → drop n (xs ++ ys) ≡ drop n xs ++ ys
drop-append xs ys zero h = refl
drop-append [] ys (suc n) h = absurd (omega arith)
drop-append (x ∷ xs) ys (suc n) h = drop-append xs ys n (omega arith)

drop_one : (xs : List ℕ) (i : ℕ) → i < length xs → drop 1 (drop i xs) ≡ drop (suc i) xs
drop_one [] i h = absurd (omega arith)
drop_one (x ∷ xs) zero h = refl
drop_one (x ∷ xs) (suc i) h = drop_one xs i (omega arith)

pub length-drop : (xs : List ℕ) (n : ℕ) → length (drop n xs) ≡ length xs - n
length-drop xs zero = omega arith
length-drop [] (suc n) = omega arith
length-drop (x ∷ xs) (suc n) = length-drop xs n ∙ omega arith

pub length-take : (xs : List ℕ) (n : ℕ) → n ≤ length xs → length (take n xs) ≡ n
length-take xs zero h = refl
length-take [] (suc n) h = absurd (omega arith)
length-take (x ∷ xs) (suc n) h = ap suc (length-take xs n (omega arith))

pub latest_at : (n k : ℕ) (xs : List ℕ) → length xs - n ≡ k → latest n xs ≡ drop k xs
latest_at n k xs e = rw e refl

pub latest_few : (n : ℕ) (xs : List ℕ) → length xs ≤ n → latest n xs ≡ xs
latest_few n xs h = latest_at n 0 xs (omega arith)

-- Of the latest `n` and one more, the latest `n` are those of all and that one.
pub latest-snoc :
    (n x : ℕ) (xs : List ℕ) → latest n (latest n xs ++ (x ∷ [])) ≡ latest n (xs ++ (x ∷ []))
latest-snoc n x xs = elim (dec_lt n (suc (length xs))) [
  | yes h ↦
      latest_at n 1 (latest n xs ++ (x ∷ []))
        (omega (arith, length-append (latest n xs) (x ∷ []), length-drop xs (length xs - n)))
      ∙ ap (drop 1) (sym (drop-append xs (x ∷ []) (length xs - n) (omega arith)))
      ∙ drop_one (xs ++ (x ∷ [])) (length xs - n) (omega (arith, length-append xs (x ∷ [])))
      ∙ sym (
          latest_at n (suc (length xs - n)) (xs ++ (x ∷ []))
            (omega (arith, length-append xs (x ∷ []))))
  | no h ↦ ap (λ q. latest n (q ++ (x ∷ []))) (latest_few n xs (omega arith))
]

module _ (xs : List ℕ) (head capacity x : ℕ) (size : length xs ≡ capacity)
    (lt : head < capacity) where
  -- the position after `head`, round the ring
  pub next_head :
      (((head + 1) % capacity ≡ suc head) × (suc head < capacity))
      ⊎ (((head + 1) % capacity ≡ 0) × (suc head ≡ capacity))
  next_head = elim (dec_lt (suc head) capacity) [
    | yes h ↦ inl (mod-eq_of_lt {n = head + 1} {m = capacity} (omega arith) ∙ omega arith, h)
    | no h ↦
        let whole : head + 1 ≡ capacity = omega arith in
        inr (ap (λ k. k % capacity) whole ∙ mod_self capacity, omega arith)
  ]

  filled : take (suc head) (set xs head x) ≡ take head xs ++ (x ∷ [])
  filled = take-set xs head x (omega arith)

  -- A ring that is filling up has its entries from 0 on, and the next goes to their end.
  pub push_filling :
      contents_of (set xs head x) ((head + 1) % capacity) (suc head)
      ≡ contents_of xs head head ++ (x ∷ [])
  push_filling = elim next_head [
    | inl (e, h) ↦ rw (e, drop-take (set xs head x) (suc head), drop-take xs head) filled
    | inr (e, h) ↦ rw (e, drop-take xs head, append-nil) filled
  ]

  whole : take capacity (set xs head x) ≡ set xs head x
  whole = take_all (set xs head x) capacity (omega (arith, length-set xs head x))

  dropped :
      drop 1 (contents_of xs head capacity ++ (x ∷ []))
      ≡ drop (suc head) xs ++ (take head xs ++ (x ∷ []))
  dropped =
      rw (take_all xs capacity (omega arith), append_assoc)
        (drop-append (drop head xs) (take head xs ++ (x ∷ [])) 1
          (omega (arith, length-drop xs head)))
      ∙ ap (λ q. q ++ (take head xs ++ (x ∷ []))) (drop_one xs head (omega arith))

  -- A full ring begins at `head`, where the oldest entry gives way to the new one.
  pub push_full :
      contents_of (set xs head x) ((head + 1) % capacity) capacity
      ≡ drop 1 (contents_of xs head capacity ++ (x ∷ []))
  push_full = elim next_head [
    | inl (e, h) ↦ rw (e, whole, dropped, drop-set, filled) refl
    | inr (e, h) ↦
        rw (e, whole, dropped, drop_all xs (suc head) (omega arith), append-nil)
          (sym (take_all (set xs head x) (suc head) (omega (arith, length-set xs head x))) ∙ filled)
  ]

pub length-contents_of :
    (xs : List ℕ) (head count : ℕ)
    → head ≤ count
    → count ≤ length xs
    → length (contents_of xs head count) ≡ count
length-contents_of xs head count h k = omega (
  arith,
  length-append (drop head (take count xs)) (take head xs),
  length-drop (take count xs) head,
  length-take xs count k,
  length-take xs head (omega arith),
)
