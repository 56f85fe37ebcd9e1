-- ===== src/Tests/Swarms.antt =====
-- Bitfields of a file of ten chunks, and a cache of three files.
use dfs_go.Common.{
  ℕ, ◌≡◌, ◌↔◌, ◌<◌, refl, String, List, [], ◌∷◌, Bool, true, false, some, string_discrete, arith,
  test, if◌then◌else◌, contains, total,
}
use mathlib.Core.List.{lookup}
use dfs_go.Ipc.Words.{pos, negsuc}
use dfs_go.Swarm.{has_bit, all_set}
use dfs_go.Swarm.Sets.{Update, set, clear, run, holds, run_lem}
use dfs_go.Swarm.Cache.{
  SeedSource, CacheEntry, Store, read_back, is_original, get_seed_source, evict_if_needed,
}
use dfs_go.Swarm.Cache.Evict.{Kept, evict_if_needed-Kept}
use dfs_go.Swarm.Cache.Entries.{IsKeyed}
use dfs_go.Swarm.Cache.Works.{Works}
use dfs_go.Swarm.Cache.Limit.{Done, evict_if_needed-Done}

abbrev updates : List Update
updates = clear (pos 3) ∷ set (pos 9) ∷ set (negsuc 0) ∷ set (pos 3) ∷ []

run_lem_example :
    ((j : ℕ) → has_bit (run 10 updates) (pos j) ≡ holds updates j)
    × ((all_set (run 10 updates) 10 ≡ true) ↔ ((i : ℕ) → i < 10 → holds updates i ≡ true))
run_lem_example = run_lem 10 updates (tt, (omega arith, (tt, (omega arith, tt))))

abbrev seed : String → SeedSource
seed path = record {
  original_path = path;
  cas_backed = true;
  chunk_size = 4;
  total_chunks = 2;
  bitfield = 3 ∷ [];
}

abbrev cached : String → ℕ → ℕ → CacheEntry
cached key size at = record { file_key = key; size = size; last_accessed = at }

abbrev store : Store
store = record {
  cache =
      ("a", some (cached "a" 40 3))
      ∷ ("b", some (cached "b" 30 1))
      ∷ ("c", some (cached "c" 30 2))
      ∷ [];
  seeds = ("a", some (seed "")) ∷ ("b", some (seed "/home/b")) ∷ ("c", some (seed "")) ∷ [];
  is_open = true;
  refuses_cache = λ key. false;
  refuses_seeds = λ key. false;
  evicted = [];
}

-- the chunks of "a" cannot be removed
abbrev evict : String → Bool
evict key = if test (string_discrete key "a") then false else true

original : is_original (get_seed_source "b" store) ≡ true
unfolding is_original get_seed_source read_back lookup string_discrete
original = refl

keyed : IsKeyed store.cache
unfolding contains string_discrete
keyed = ((refl, (refl, (refl, tt))), (refl, (refl, (refl, tt))))

works : Works store
unfolding total
works = record {
  opened = refl;
  writes_cache = λ key. refl;
  writes_seeds = λ key. refl;
  small = omega arith;
}

evict_if_needed-Kept_example : Kept "b" store (evict_if_needed (some evict) 50 store)
evict_if_needed-Kept_example = evict_if_needed-Kept (some evict) 50 "b" store original

evict_if_needed-Done_example : Done (some evict) 50 (evict_if_needed (some evict) 50 store)
evict_if_needed-Done_example = evict_if_needed-Done (some evict) 50 store (omega arith) keyed works
