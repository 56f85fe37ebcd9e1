-- ===== src/Swarm/Cache/Limit.antt =====
-- How far EvictIfNeeded of Storage/swarm/cache.go goes where the database works.
use dfs_go.Common.{ℕ, ◌≤◌, ◌<◌, ◌^◌, ◌≡◌, refl, sym, ap, ◌∙◌, arith, Bool, true, false}
use dfs_go.Common.{String, string_discrete, Option, some, List, [], ◌∷◌}
use dfs_go.Common.{total, contains, IsDistinct, All, All-map, Bool-cases, inl, inr, ◌⊎◌}
use dfs_go.Common.Assoc.{keys, delete-IsDistinct, contains-keys}
use dfs_go.Common.Sort.{sort_by, All-sort_by}
use dfs_go.Handoff.{sub64, above64}
use dfs_go.Swarm.Cache.{CacheEntry, Store, older, list_cache_entries, total_cache_size}
use dfs_go.Swarm.Cache.{get_cache_entry, get_seed_source}
use dfs_go.Swarm.Cache.{
  is_original, evict_succeeds, evict_chunks, drop_file, evict_loop, evict_listed, evict_if_needed,
}
use dfs_go.Swarm.Cache.Entries.{
  IsKeyed, names, weight, entries, contains-sort_by, sort_by-IsDistinct, names-keys, listed-All,
  parsed-entries,
}
use dfs_go.Swarm.Cache.Evict.{drop_file-Kept}
use dfs_go.Swarm.Cache.Works.{
  Works, total_cache_size-Works, found_lookup, lookup_found, above64_small, entry-evict_chunks,
  seed-evict_chunks, cache-evict_chunks, evict_chunks-Works, cache-drop_file, Works-drop_file,
  total_drop, dropped,
}
use mathlib.Core.Path.{subst}

-- every entry of the list is the one that the store has for its file
abbrev Listed : List CacheEntry → Store → Type 0
Listed es st = All (λ e. get_cache_entry e.file_key st ≡ some e) es

module _ (evict : Option (String → Bool)) where
  -- a file that EvictIfNeeded has to leave: an original, or one whose chunks cannot be removed
  abbrev pub Stays : Store → String → Type 0
  Stays st key = (is_original (get_seed_source key st) ≡ true) ⊎ (evict_succeeds evict key ≡ false)

  -- Every file of the cache is still to come, or stays.
  abbrev Pending : List CacheEntry → Store → Type 0
  Pending es st =
      (key : String) (e : CacheEntry)
      → get_cache_entry key st ≡ some e
      → (contains string_discrete (names es) key ≡ true) ⊎ Stays st key

  record Ready (es : List CacheEntry) (st : Store) : Type 0 where
    distinct : IsDistinct string_discrete (names es)
    listed : Listed es st
    keyed : IsDistinct string_discrete (keys st.cache)
    pending : Pending es st
    works : Works st

  -- the rounds that leave the cache alone: the first file stays
  Ready-skip :
      (e : CacheEntry) (es : List CacheEntry) (st : Store)
      → Stays st e.file_key
      → Ready (e ∷ es) st
      → Ready es st
  Ready-skip e es st stays r = record {
    distinct = r.distinct.1;
    listed = r.listed.1;
    keyed = r.keyed;
    pending = λ key x at. elim (r.pending key x at) [
      | inl c ↦ elim (string_discrete key e.file_key) [
        | yes same ↦ inr (subst (Stays st) (sym same) stays)
        | no ne ↦ inl (unfold contains in ground (arith, c))
      ]
      | inr s ↦ inr s
    ];
    works = r.works;
  }

  Stays-same :
      (key : String) (st st' : Store)
      → get_seed_source key st' ≡ get_seed_source key st
      → Stays st key
      → Stays st' key
  Stays-same key st st' same (inl orig) = inl (ap is_original same ∙ orig)
  Stays-same key st st' same (inr bad) = inr bad

  Ready-call :
      (k : String) (es : List CacheEntry) (st : Store)
      → Ready es st
      → Ready es (evict_chunks evict k st)
  Ready-call k es st r = record {
    distinct = r.distinct;
    listed = All-map (λ e at. entry-evict_chunks evict e.file_key k st ∙ at) es r.listed;
    keyed = rw (cache-evict_chunks evict k st) r.keyed;
    pending = λ key x at. elim (r.pending key x (sym (entry-evict_chunks evict key k st) ∙ at)) [
      | inl c ↦ inl c
      | inr s ↦
          inr (Stays-same key st (evict_chunks evict k st) (seed-evict_chunks evict key k st) s)
    ];
    works = evict_chunks-Works evict k st r.works;
  }

  Listed-drop :
      (k : String) (es : List CacheEntry) (st : Store)
      → contains string_discrete (names es) k ≡ false
      → Listed es st
      → Listed es (drop_file k st)
  unfolding contains
  Listed-drop k [] st c h = tt
  Listed-drop k (e ∷ es) st c h = (
    (drop_file-Kept e.file_key k st (λ same. ground (arith, c))).entry ∙ h.0,
    Listed-drop k es st (ground (arith, c)) h.1,
  )

  Ready-drop :
      (e : CacheEntry) (es : List CacheEntry) (st : Store)
      → Ready (e ∷ es) st
      → Ready es (drop_file e.file_key st)
  Ready-drop e es st r = record {
    distinct = r.distinct.1;
    listed = Listed-drop e.file_key es st r.distinct.0 r.listed.1;
    keyed =
        rw (cache-drop_file e.file_key st r.works)
          (delete-IsDistinct string_discrete e.file_key st.cache r.keyed);
    pending = λ key x at. elim (string_discrete e.file_key key) [
      | yes same ↦
          absurd (gone key x (ap (λ k. get_cache_entry k (drop_file e.file_key st)) same) at)
      | no ne ↦
          let kept = drop_file-Kept key e.file_key st ne in
          elim (r.pending key x (sym kept.entry ∙ at)) [
            | inl c ↦ inl (unfold contains in ground (arith, c))
            | inr s ↦ inr (Stays-same key st (drop_file e.file_key st) kept.seed s)
          ]
    ];
    works =
        Works-drop_file e.file_key e st r.keyed (found_lookup e.file_key e st r.listed.0) r.works;
  }
    where
      gone :
          (key : String) (x : CacheEntry)
          → get_cache_entry e.file_key (drop_file e.file_key st)
            ≡ get_cache_entry key (drop_file e.file_key st)
          → get_cache_entry key (drop_file e.file_key st) ≡ some x
          → ⊥
      gone key x same at = let none_left = dropped e.file_key st r.works in cc

  -- at or under the limit, or with nothing left that could be evicted
  abbrev pub Done : ℕ → Store → Type 0
  Done limit st =
      (total_cache_size st ≤ limit)
      ⊎ ((key : String) (e : CacheEntry) → get_cache_entry key st ≡ some e → Stays st key)

  total-call :
      (k : String) (st : Store)
      → Works st
      → total_cache_size (evict_chunks evict k st) ≡ total_cache_size st
  total-call k st w =
      total_cache_size-Works (evict_chunks evict k st) (evict_chunks-Works evict k st w)
      ∙ ap (total weight) (cache-evict_chunks evict k st)
      ∙ sym (total_cache_size-Works st w)

  is_under :
      (limit : ℕ) (st : Store)
      → limit < 2 ^ 63
      → Works st
      → above64 (total_cache_size st) limit ≡ false
      → total_cache_size st ≤ limit
  is_under limit st lt w under =
      above64_small (total_cache_size st) limit (rw (total_cache_size-Works st w) w.small) lt under

  evict_loop-Done :
      (limit : ℕ) (es : List CacheEntry) (total : ℕ) (st : Store)
      → limit < 2 ^ 63
      → total ≡ total_cache_size st
      → Ready es st
      → Done limit (evict_loop evict limit es total st)
  unfolding evict_loop
  evict_loop-Done limit [] total st lt t r =
      inr (λ key e at. elim (r.pending key e at) [
        | inl c ↦ absurd (unfold contains in cc)
        | inr s ↦ s
      ])
  evict_loop-Done limit (e ∷ es) total st lt t r = elim (Bool-cases (above64 total limit)) [
    | inr under ↦
        rw under (inl (is_under limit st lt r.works (ap (λ n. above64 n limit) (sym t) ∙ under)))
    | inl over ↦ elim (Bool-cases (is_original (get_seed_source e.file_key st))) [
      | inl orig ↦
          rw (over, orig) (evict_loop-Done limit es total st lt t (Ready-skip e es st (inl orig) r))
      | inr other ↦
          let st' = evict_chunks evict e.file_key st in
          let called = Ready-call e.file_key (e ∷ es) st r in
          let t' : total ≡ total_cache_size st' = t ∙ sym (total-call e.file_key st r.works) in
          elim (Bool-cases (evict_succeeds evict e.file_key)) [
            | inl good ↦
                rw (over, other, good)
                  (evict_loop-Done limit es (sub64 total e.size) (drop_file e.file_key st') lt
                    (ap (λ n. sub64 n e.size) t'
                      ∙ total_drop e.file_key e st' called.keyed
                          (found_lookup e.file_key e st' called.listed.0) called.works)
                    (Ready-drop e es st' called))
            | inr bad ↦
                rw (over, other, bad)
                  (evict_loop-Done limit es total st' lt t' (Ready-skip e es st' (inr bad) called))
          ]
    ]
  ]

  -- what ListCacheEntries lists, sorted once more
  Ready-start :
      (st : Store)
      → IsKeyed st.cache
      → Works st
      → Ready (sort_by older (sort_by older (entries st.cache))) st
  Ready-start st (d, k) w = record {
    distinct =
        sort_by-IsDistinct older listed
          (sort_by-IsDistinct older all (rw (names-keys st.cache k) d));
    listed =
        All-sort_by older (λ e. get_cache_entry e.file_key st ≡ some e) listed
          (All-sort_by older (λ e. get_cache_entry e.file_key st ≡ some e) all
            (All-map (λ e at. lookup_found e.file_key e st w at) all (listed-All st.cache d k)));
    keyed = d;
    pending = λ key e at. inl (listed_key key e at);
    works = w;
  }
    where
      all : List CacheEntry
      all = entries st.cache

      listed : List CacheEntry
      listed = sort_by older all

      listed_key :
          (key : String) (e : CacheEntry)
          → get_cache_entry key st ≡ some e
          → contains string_discrete (names (sort_by older listed)) key ≡ true
      listed_key key e at =
          contains-sort_by older listed key
          ∙ contains-sort_by older all key
          ∙ ap (λ ks. contains string_discrete ks key) (names-keys st.cache k)
          ∙ contains-keys string_discrete key st.cache (some e) (found_lookup key e st at)

  list-entries :
      (st : Store)
      → IsKeyed st.cache
      → Works st
      → list_cache_entries st ≡ some (sort_by older (entries st.cache))
  unfolding list_cache_entries
  list-entries st keyed w = rw (w.opened, parsed-entries st.cache keyed.1) refl

  -- Where the database is open and refuses no write, each entry parses, stands under its file and
  -- no file has two, and the sizes add up to less than 2^63, as the limit is, EvictIfNeeded ends
  -- with the cache at or under the limit, or with no entry left but those of original seeders and
  -- of files whose chunks could not be removed.
  pub evict_if_needed-Done :
      (limit : ℕ) (st : Store)
      → limit < 2 ^ 63
      → IsKeyed st.cache
      → Works st
      → Done limit (evict_if_needed evict limit st)
  unfolding evict_if_needed evict_listed
  evict_if_needed-Done limit st lt keyed w =
      elim (Bool-cases (above64 (total_cache_size st) limit)) [
        | inr under ↦ rw under (inl (is_under limit st lt w under))
        | inl over ↦
            rw (over, list-entries st keyed w)
              (evict_loop-Done limit _ (total_cache_size st) st lt refl (Ready-start st keyed w))
      ]
