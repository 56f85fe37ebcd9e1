-- ===== src/Pending/Keys.antt =====
-- The file names of uploads (Storage/pending/pending.go).
use dfs_go.Common.{ℕ, zero, suc, ◌≡◌, refl, ap, List, [], ◌∷◌, false, length, All}
use dfs_go.Common.{contains, ℕ_discrete, Bool-cases, inl, inr}
use dfs_go.Pending.{separators, clean, rest_of_rune, sanitize_from, sanitize_key}

underscore_safe : contains ℕ_discrete separators 95 ≡ false
unfolding contains ℕ_discrete
underscore_safe = refl

zero_safe : contains ℕ_discrete separators 0 ≡ false
unfolding contains ℕ_discrete
zero_safe = refl

clean_safe : (b : ℕ) → contains ℕ_discrete separators (clean b) ≡ false
unfolding clean
clean_safe b = elim (Bool-cases (contains ℕ_discrete separators b)) [
  | inl there ↦ rw there underscore_safe
  | inr fresh ↦ rw (fresh, fresh) refl
]

abbrev IsSafe : ℕ → List ℕ → Type 0
IsSafe n name = (length name ≡ n) × All (λ b. contains ℕ_discrete separators b ≡ false) name

IsSafe-cons :
    (b n : ℕ) (name : List ℕ)
    → contains ℕ_discrete separators b ≡ false
    → IsSafe n name
    → IsSafe (suc n) (b ∷ name)
IsSafe-cons b n name safe h = (ap suc h.0, (safe, h.1))

sanitize_from-IsSafe : (n : ℕ) (key : List ℕ) → IsSafe (length key) (sanitize_from n key)
unfolding sanitize_from
sanitize_from-IsSafe n [] = (refl, tt)
sanitize_from-IsSafe zero (b ∷ bytes) =
    IsSafe-cons (clean b) (length bytes) (sanitize_from (rest_of_rune b bytes) bytes) (clean_safe b)
      (sanitize_from-IsSafe (rest_of_rune b bytes) bytes)
sanitize_from-IsSafe (suc n) (b ∷ bytes) =
    IsSafe-cons 0 (length bytes) (sanitize_from n bytes) zero_safe (sanitize_from-IsSafe n bytes)

-- The file name of a key has as many bytes as the key, and none of the separators.
sanitize_key-IsSafe : (key : List ℕ) → IsSafe (length key) (sanitize_key key)
unfolding sanitize_key
sanitize_key-IsSafe key = sanitize_from-IsSafe 0 key
