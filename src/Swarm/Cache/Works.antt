-- ===== src/Swarm/Cache/Works.antt =====
-- A round of EvictIfNeeded of Storage/swarm/cache.go where the database works.
use dfs_go.Common.{
  ℕ, ◌-◌, ◌+◌, IsDistinct, ◌≤◌, ◌<◌, ◌^◌, ◌≡◌, refl, sym, ap, ◌∙◌, arith, Bool, true, false,
}
use dfs_go.Common.{String, string_discrete, Option, none, some}
use dfs_go.Common.{total, if_pos}
use dfs_go.Common.Assoc.{delete, keys, lookup-delete}
use dfs_go.Handoff.{sub64, above64}
use dfs_go.Swarm.Cache.{CacheEntry, Store, total_cache_size, read_back}
use dfs_go.Swarm.Cache.{get_cache_entry, get_seed_source, remove_seed_source, remove_cache_entry}
use dfs_go.Swarm.Cache.{evict_chunks, drop_file}
use dfs_go.Swarm.Cache.Entries.{weight, sum_sizes-total, total-delete}
use mathlib.Core.List.{lookup}
use mathlib.Core.Path.{subst}

-- The database is open and refuses no write, and the sizes add up to less than 2^63.
pub record Works (st : Store) : Type 0 where
  pub opened : st.is_open ≡ true
  pub writes_cache : (key : String) → st.refuses_cache key ≡ false
  pub writes_seeds : (key : String) → st.refuses_seeds key ≡ false
  pub small : total weight st.cache < 2 ^ 63

pub total_cache_size-Works : (st : Store) → Works st → total_cache_size st ≡ total weight st.cache
unfolding total_cache_size
total_cache_size-Works st w =
    rw w.opened (sum_sizes-total 0 st.cache (omega (arith, w.small)) ∙ omega arith)

read_back-some :
    (b : Bool) (found : Option (Option CacheEntry)) (e : CacheEntry)
    → read_back b found ≡ some e
    → found ≡ some (some e)
unfolding read_back
read_back-some false found e h = absurd cc
read_back-some true none e h = absurd cc
read_back-some true (some x) e h = ap some h

pub found_lookup :
    (key : String) (e : CacheEntry) (st : Store)
    → get_cache_entry key st ≡ some e
    → lookup string_discrete key st.cache ≡ some (some e)
unfolding get_cache_entry
found_lookup key e st at = read_back-some st.is_open (lookup string_discrete key st.cache) e at

pub lookup_found :
    (key : String) (e : CacheEntry) (st : Store)
    → Works st
    → lookup string_discrete key st.cache ≡ some (some e)
    → get_cache_entry key st ≡ some e
unfolding get_cache_entry read_back
lookup_found key e st w at = rw (at, w.opened) refl

-- In the range of sizes, the arithmetic on int64 is that on numbers.
pub sub64_small : (a b : ℕ) → b ≤ a → a < 2 ^ 63 → sub64 a b ≡ a - b
unfolding sub64
sub64_small a b le lt = omega (arith, le, lt)

pub above64_small : (a b : ℕ) → a < 2 ^ 63 → b < 2 ^ 63 → above64 a b ≡ false → a ≤ b
unfolding above64
above64_small a b la lb e = ground (arith, la, lb, e)

module _ (evict : Option (String → Bool)) where
  pub entry-evict_chunks :
      (key k : String) (st : Store)
      → get_cache_entry key (evict_chunks evict k st) ≡ get_cache_entry key st
  unfolding get_cache_entry
  entry-evict_chunks key k st = same evict
    where
      same :
          (f : Option (String → Bool))
          → read_back
              (evict_chunks f k st).is_open
              (lookup string_discrete key (evict_chunks f k st).cache)
            ≡ read_back st.is_open (lookup string_discrete key st.cache)
      same none = unfold evict_chunks in refl
      same (some f) = unfold evict_chunks in refl

  pub seed-evict_chunks :
      (key k : String) (st : Store)
      → get_seed_source key (evict_chunks evict k st) ≡ get_seed_source key st
  unfolding get_seed_source
  seed-evict_chunks key k st = same evict
    where
      same :
          (f : Option (String → Bool))
          → read_back
              (evict_chunks f k st).is_open
              (lookup string_discrete key (evict_chunks f k st).seeds)
            ≡ read_back st.is_open (lookup string_discrete key st.seeds)
      same none = unfold evict_chunks in refl
      same (some f) = unfold evict_chunks in refl

  pub cache-evict_chunks : (k : String) (st : Store) → (evict_chunks evict k st).cache ≡ st.cache
  cache-evict_chunks k st = same evict
    where
      same : (f : Option (String → Bool)) → (evict_chunks f k st).cache ≡ st.cache
      same none = unfold evict_chunks in refl
      same (some f) = unfold evict_chunks in refl

  pub evict_chunks-Works : (k : String) (st : Store) → Works st → Works (evict_chunks evict k st)
  evict_chunks-Works k st w = same evict
    where
      same : (f : Option (String → Bool)) → Works (evict_chunks f k st)
      same none = unfold evict_chunks in w
      same (some f) =
          unfold evict_chunks in
          record {
            opened = w.opened;
            writes_cache = w.writes_cache;
            writes_seeds = w.writes_seeds;
            small = w.small;
          }

-- Both removals are carried out.
drop_file-Works :
    (k : String) (st : Store)
    → Works st
    → drop_file k st ≡ record st {
      cache = delete string_discrete k st.cache;
      seeds = delete string_discrete k st.seeds;
    }
unfolding drop_file remove_seed_source remove_cache_entry
drop_file-Works k st w = rw (w.opened, w.writes_cache k, w.writes_seeds k) refl

pub cache-drop_file :
    (k : String) (st : Store)
    → Works st
    → (drop_file k st).cache ≡ delete string_discrete k st.cache
cache-drop_file k st w = ap (λ (s : Store). s.cache) (drop_file-Works k st w)

pub Works-drop_file :
    (k : String) (e : CacheEntry) (st : Store)
    → IsDistinct string_discrete (keys st.cache)
    → lookup string_discrete k st.cache ≡ some (some e)
    → Works st
    → Works (drop_file k st)
Works-drop_file k e st d at w = subst Works (sym (drop_file-Works k st w)) (record {
  opened = w.opened;
  writes_cache = w.writes_cache;
  writes_seeds = w.writes_seeds;
  small = omega (arith, w.small, total-delete k e st.cache d at);
})

-- The total that the loop keeps is the size of what is left.
pub total_drop :
    (k : String) (e : CacheEntry) (st : Store)
    → IsDistinct string_discrete (keys st.cache)
    → lookup string_discrete k st.cache ≡ some (some e)
    → Works st
    → sub64 (total_cache_size st) e.size ≡ total_cache_size (drop_file k st)
total_drop k e st d at w =
    ap (λ n. sub64 n e.size) (total_cache_size-Works st w)
    ∙ sub64_small (total weight st.cache) e.size (omega (arith, step)) w.small
    ∙ (omega (arith, step))
    ∙ ap (total weight) (sym (cache-drop_file k st w))
    ∙ sym (total_cache_size-Works (drop_file k st) (Works-drop_file k e st d at w))
  where
    step : total weight st.cache ≡ total weight (delete string_discrete k st.cache) + e.size
    step = total-delete k e st.cache d at

pub dropped : (k : String) (st : Store) → Works st → get_cache_entry k (drop_file k st) ≡ none
unfolding get_cache_entry
dropped k st w = go (drop_file k st).is_open _ gone
  where
    gone : lookup string_discrete k (drop_file k st).cache ≡ none
    gone =
        ap (lookup string_discrete k) (cache-drop_file k st w)
        ∙ lookup-delete string_discrete k k st.cache
        ∙ if_pos (string_discrete k k) refl none _

    go : (b : Bool) (found : Option (Option CacheEntry)) → found ≡ none → read_back b found ≡ none
    go false found e = unfold read_back in refl
    go true none e = unfold read_back in refl
    go true (some x) e = absurd cc
