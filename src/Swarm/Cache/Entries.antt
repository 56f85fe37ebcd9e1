-- ===== src/Swarm/Cache/Entries.antt =====
-- The entries of the cache (Storage/swarm/cache.go) as a map and as the sorted list of them.
use dfs_go.Common.{ℕ, ◌+◌, ◌<◌, ◌^◌, ◌≡◌, refl, ap, ◌∙◌, arith, Bool, true, false}
use dfs_go.Common.{String, string_discrete, Option, none, some, List, [], ◌∷◌, map, ite}
use dfs_go.Common.{total, contains, IsDistinct, All, All-map}
use dfs_go.Common.Assoc.{delete, keys}
use dfs_go.Common.Assoc.{contains-keys}
use dfs_go.Common.Sort.{insert_by, sort_by}
use dfs_go.Handoff.{add64}
use dfs_go.Swarm.Cache.{CacheEntry, sum_sizes, parsed}
use mathlib.Core.List.{lookup}
use mathlib.Core.Option

-- The entry of a file parses, and stands under its file.
abbrev pub Under : String → Option CacheEntry → Type 0
Under k none = ⊥
Under k (some e) = e.file_key ≡ k

-- a cache in which no file has two entries, and each parses and stands under its file
abbrev pub IsKeyed : List (String × Option CacheEntry) → Type 0
IsKeyed cache = IsDistinct string_discrete (keys cache) × All (λ p. Under p.0 p.1) cache

abbrev pub names : List CacheEntry → List String
names es = map (λ e. e.file_key) es

-- the size that an entry counts for
abbrev pub weight : String × Option CacheEntry → ℕ
weight (k, none) = 0
weight (k, some e) = e.size

-- the entries that parse
abbrev pub entries : List (String × Option CacheEntry) → List CacheEntry
entries [] = []
entries ((k, none) ∷ m) = entries m
entries ((k, some e) ∷ m) = e ∷ entries m

delete_absent :
    (k : String) (m : List (String × Option CacheEntry))
    → contains string_discrete (keys m) k ≡ false
    → delete string_discrete k m ≡ m
unfolding delete contains
delete_absent k [] c = refl
delete_absent k ((j, w) ∷ m) c = ground (arith, delete_absent k m)

pub total-delete :
    (k : String) (e : CacheEntry) (m : List (String × Option CacheEntry))
    → IsDistinct string_discrete (keys m)
    → lookup string_discrete k m ≡ some (some e)
    → total weight m ≡ total weight (delete string_discrete k m) + e.size
unfolding lookup delete total
total-delete k e [] d h = absurd cc
total-delete k e ((j, w) ∷ m) d h = elim (string_discrete k j) [
  | yes same ↦
      let absent = ap (contains string_discrete (keys m)) same ∙ d.0 in
      ground (arith, delete_absent k m absent, ap (λ x. weight (j, x)) (found same))
  | no ne ↦ ground (arith, total-delete k e m d.1)
]
  where
    found : k ≡ j → w ≡ some e
    found same = ground (arith, h)

-- The sum of sizes does not wrap where it stays below 2^64.
pub sum_sizes-total :
    (n : ℕ) (m : List (String × Option CacheEntry))
    → n + total weight m < 2 ^ 64
    → sum_sizes n m ≡ n + total weight m
unfolding sum_sizes total
sum_sizes-total n [] h = omega arith
sum_sizes-total n ((k, none) ∷ m) h = sum_sizes-total n m (omega (arith, h)) ∙ omega arith
sum_sizes-total n ((k, some e) ∷ m) h =
    ap (λ s. sum_sizes s m) (exact e.size (omega (arith, h)))
    ∙ sum_sizes-total (n + e.size) m (omega (arith, h))
    ∙ omega arith
  where
    exact : (s : ℕ) → n + s < 2 ^ 64 → add64 n s ≡ n + s
    exact s lt = unfold add64 in omega arith

pub parsed-entries :
    (m : List (String × Option CacheEntry))
    → All (λ p. Under p.0 p.1) m
    → parsed m ≡ some (entries m)
unfolding parsed
parsed-entries [] h = refl
parsed-entries ((k, none) ∷ m) h = absurd h.0
parsed-entries ((k, some e) ∷ m) h = ap (Option.map (◌∷◌ e)) (parsed-entries m h.1)

module _ (le : CacheEntry → CacheEntry → Bool) where
  pub contains-insert_by :
      (x : CacheEntry) (xs : List CacheEntry) (k : String)
      → contains string_discrete (names (insert_by le x xs)) k
        ≡ ite (string_discrete k x.file_key) true (contains string_discrete (names xs) k)
  unfolding insert_by contains
  contains-insert_by x [] k = refl
  contains-insert_by x (y ∷ ys) k = ground (arith, contains-insert_by x ys k)

  pub insert_by-IsDistinct :
      (x : CacheEntry) (xs : List CacheEntry)
      → contains string_discrete (names xs) x.file_key ≡ false
      → IsDistinct string_discrete (names xs)
      → IsDistinct string_discrete (names (insert_by le x xs))
  unfolding insert_by contains
  insert_by-IsDistinct x [] c d = ground arith
  insert_by-IsDistinct x (y ∷ ys) c d =
      ground (arith, insert_by-IsDistinct x ys, contains-insert_by x ys y.file_key)

  pub contains-sort_by :
      (xs : List CacheEntry) (k : String)
      → contains string_discrete (names (sort_by le xs)) k ≡ contains string_discrete (names xs) k
  unfolding sort_by contains
  contains-sort_by [] k = refl
  contains-sort_by (x ∷ xs) k =
      rw (contains-insert_by x (sort_by le xs) k, contains-sort_by xs k) refl

  pub sort_by-IsDistinct :
      (xs : List CacheEntry)
      → IsDistinct string_discrete (names xs)
      → IsDistinct string_discrete (names (sort_by le xs))
  unfolding sort_by
  sort_by-IsDistinct [] d = tt
  sort_by-IsDistinct (x ∷ xs) d =
      insert_by-IsDistinct x (sort_by le xs) (contains-sort_by xs x.file_key ∙ d.0)
        (sort_by-IsDistinct xs d.1)

pub names-keys :
    (m : List (String × Option CacheEntry))
    → All (λ p. Under p.0 p.1) m
    → names (entries m) ≡ keys m
names-keys [] h = refl
names-keys ((k, none) ∷ m) h = absurd h.0
names-keys ((k, some e) ∷ m) h = rw (h.0, names-keys m h.1) refl

pub listed-All :
    (m : List (String × Option CacheEntry))
    → IsDistinct string_discrete (keys m)
    → All (λ p. Under p.0 p.1) m
    → All (λ e. lookup string_discrete e.file_key m ≡ some (some e)) (entries m)
unfolding lookup
listed-All [] d h = tt
listed-All ((k, none) ∷ m) d h = absurd h.0
listed-All ((k, some e) ∷ m) d h = (
  ground (arith, h.0),
  All-map
      (λ x at. ground (
        arith,
        at,
        contains-keys string_discrete x.file_key m (some x) at,
        d.0,
        ap (contains string_discrete (keys m)),
      ))
      (entries m) (listed-All m d.1 h.1),
)
