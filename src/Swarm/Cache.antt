-- ===== src/Swarm/Cache.antt =====
-- The cache of the swarm store (Storage/swarm/cache.go) over the application's database (the seed
-- sources and the cache usage of State/state.go): which files EvictIfNeeded evicts. A bucket of the
-- database is a Go map; an entry is read back as it was put, and one that does not parse is `none`.
-- The database refuses everything once it is closed, and may refuse to write a key. An int64 is its
-- residue. `time.Now()` is an argument, and `evict`, which removes the chunks of a file, a parameter
-- that tells whether it succeeded.
pub mod Evict
pub mod Entries
pub mod Works
pub mod Limit
use dfs_go.Common.{ℕ, zero, suc, ◌+◌, ◌-◌, ◌*◌, Bool, true, false, String, string_discrete, not}
use dfs_go.Common.{Option, none, some, List, [], ◌∷◌, ◌++◌, map}
use dfs_go.Common.{leb, ◌==◌, if◌then◌else◌, test, length, total, ◌&&◌}
use dfs_go.Common.Assoc.{insert, delete}
use dfs_go.Common.Sort.{sort_by}
use dfs_go.Handoff.{add64, sub64, above64}
use dfs_go.Ipc.Words.{ℤ, pos, negsuc}
use mathlib.Core.List.{lookup}
use mathlib.Core.Option

pub record SeedSource : Type 0 where
  pub original_path : String
  pub cas_backed : Bool
  pub chunk_size : ℕ
  pub total_chunks : ℕ
  pub bitfield : List ℕ

pub record CacheEntry : Type 0 where
  pub file_key : String
  pub size : ℕ
  pub last_accessed : ℕ

-- `evicted` holds the files whose chunks were removed, in order.
pub record Store : Type 0 where
  pub cache : List (String × Option CacheEntry)
  pub seeds : List (String × Option SeedSource)
  pub is_open : Bool
  pub refuses_cache : String → Bool
  pub refuses_seeds : String → Bool
  pub evicted : List String

-- what a transaction reads under a key, parsed; `none` for any error
unfoldable pub read_back : {A : Type 0} → Bool → Option (Option A) → Option A
read_back false found = none
read_back true none = none
read_back true (some entry) = entry

-- `SetCacheEntry` without its error, which both callers ignore
unfoldable pub set_cache_entry : CacheEntry → Store → Store
set_cache_entry e st =
    if st.is_open && not (st.refuses_cache e.file_key)
    then record st { cache = insert string_discrete e.file_key (some e) st.cache }
    else st

unfoldable pub get_cache_entry : String → Store → Option CacheEntry
get_cache_entry key st = read_back st.is_open (lookup string_discrete key st.cache)

-- `TouchCache` on what `GetCacheEntry` has found
unfoldable pub touch_found : Option CacheEntry → ℕ → Store → Store
touch_found none now st = st
touch_found (some e) now st = set_cache_entry (record e { last_accessed = now }) st

unfoldable pub touch_cache : String → ℕ → Store → Store
touch_cache key now st = touch_found (get_cache_entry key st) now st

-- `RemoveCacheEntry` without its error, which the caller ignores
unfoldable pub remove_cache_entry : String → Store → Store
remove_cache_entry key st =
    if st.is_open && not (st.refuses_cache key)
    then record st { cache = delete string_discrete key st.cache }
    else st

-- the comparison of both sorts; `sort.Slice` may leave entries of one time in any order
abbrev pub older : CacheEntry → CacheEntry → Bool
older a b = leb a.last_accessed b.last_accessed

-- the entries of the bucket, unless one does not parse
unfoldable pub parsed : List (String × Option CacheEntry) → Option (List CacheEntry)
parsed [] = some []
parsed ((key, none) ∷ bucket) = none
parsed ((key, some e) ∷ bucket) = Option.map (◌∷◌ e) (parsed bucket)

-- `none` is an error
unfoldable pub list_cache_entries : Store → Option (List CacheEntry)
list_cache_entries st = if st.is_open then Option.map (sort_by older) (parsed st.cache) else none

-- the loop of `TotalCacheSize`, which passes over what does not parse
unfoldable pub sum_sizes : ℕ → List (String × Option CacheEntry) → ℕ
sum_sizes total [] = total
sum_sizes total ((key, none) ∷ bucket) = sum_sizes total bucket
sum_sizes total ((key, some e) ∷ bucket) = sum_sizes (add64 total e.size) bucket

unfoldable pub total_cache_size : Store → ℕ
total_cache_size st = if st.is_open then sum_sizes 0 st.cache else 0

-- the error of `SetSeedSource` and `RemoveSeedSource` is left out
unfoldable pub set_seed_source : String → SeedSource → Store → Store
set_seed_source key src st =
    if st.is_open && not (st.refuses_seeds key)
    then record st { seeds = insert string_discrete key (some src) st.seeds }
    else st

unfoldable pub get_seed_source : String → Store → Option SeedSource
get_seed_source key st = read_back st.is_open (lookup string_discrete key st.seeds)

unfoldable pub remove_seed_source : String → Store → Store
remove_seed_source key st =
    if st.is_open && not (st.refuses_seeds key)
    then record st { seeds = delete string_discrete key st.seeds }
    else st

abbrev pub default_cache_limit : ℕ
default_cache_limit = 50 * 1024 * 1024 * 1024

-- the limit that `NewCacheManager` keeps
unfoldable pub cache_limit : ℤ → ℕ
cache_limit (negsuc n) = default_cache_limit
cache_limit (pos n) = if n == 0 then default_cache_limit else n

-- `Track`, whose error is ignored
unfoldable pub track : String → ℕ → ℕ → Store → Store
track key size now st =
    set_cache_entry (record { file_key = key; size = size; last_accessed = now }) st

-- `src != nil && src.OriginalPath != ""`
unfoldable pub is_original : Option SeedSource → Bool
is_original none = false
is_original (some src) = not (test (string_discrete src.original_path ""))

-- The call of `evict` for a file: its success, and the call in the log. Where the manager has no
-- evict function, nothing is called and nothing fails.
unfoldable pub evict_succeeds : Option (String → Bool) → String → Bool
evict_succeeds none key = true
evict_succeeds (some evict) key = evict key

unfoldable pub evict_chunks : Option (String → Bool) → String → Store → Store
evict_chunks none key st = st
evict_chunks (some evict) key st = record st { evicted = st.evicted ++ (key ∷ []) }

unfoldable pub drop_file : String → Store → Store
drop_file key st = remove_seed_source key (remove_cache_entry key st)

-- `total` is an int64, which the size of a file leaves even where its entry could not be removed.
unfoldable pub evict_loop : Option (String → Bool) → ℕ → List CacheEntry → ℕ → Store → Store
evict_loop evict limit [] total st = st
evict_loop evict limit (e ∷ es) total st =
    let st' = evict_chunks evict e.file_key st in
    let skip = evict_loop evict limit es total st in
    let failed = evict_loop evict limit es total st' in
    let rest = evict_loop evict limit es (sub64 total e.size) (drop_file e.file_key st') in
    if not (above64 total limit)
    then st
    else if is_original (get_seed_source e.file_key st)
    then skip
    else if evict_succeeds evict e.file_key
    then rest
    else failed

-- `EvictIfNeeded` on what `ListCacheEntries` gives
unfoldable pub evict_listed : Option (String → Bool) → ℕ → Option (List CacheEntry) → Store → Store
evict_listed evict limit none st = st
evict_listed evict limit (some entries) st =
    evict_loop evict limit (sort_by older entries) (total_cache_size st) st

unfoldable pub evict_if_needed : Option (String → Bool) → ℕ → Store → Store
evict_if_needed evict limit st =
    if not (above64 (total_cache_size st) limit)
    then st
    else evict_listed evict limit (list_cache_entries st) st
