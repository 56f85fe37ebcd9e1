-- ===== src/Swarm/Cache/Evict.antt =====
-- What EvictIfNeeded of Storage/swarm/cache.go spares and how far it goes.
use dfs_go.Common.{ℕ, ◌≡◌, refl, sym, ap, ◌∙◌, Bool, true, false, ◌&&◌, not}
use dfs_go.Common.{String, string_discrete, Option, none, some, List, [], ◌∷◌, ◌++◌, if_neg}
use dfs_go.Common.{contains, contains-append, Bool-cases, Option-cases, inl, inr}
use dfs_go.Common.Assoc.{lookup-delete}
use dfs_go.Handoff.{sub64, above64}
use dfs_go.Swarm.Cache.{CacheEntry, Store, total_cache_size, list_cache_entries, read_back}
use dfs_go.Swarm.Cache.{get_cache_entry, get_seed_source, remove_seed_source, remove_cache_entry}
use dfs_go.Swarm.Cache.{
  is_original, evict_succeeds, evict_chunks, drop_file, evict_loop, evict_listed, evict_if_needed,
}
use mathlib.Core.List.{append_assoc, append-nil}

-- Of a file, the seed source and the cache entry are the same in both stores, and of the calls that
-- remove chunks, none between the two stores is for the file.
pub record Kept (key : String) (st st' : Store) : Type 0 where
  pub seed : get_seed_source key st' ≡ get_seed_source key st
  pub entry : get_cache_entry key st' ≡ get_cache_entry key st
  pub calls :
      (called : List String) × (st'.evicted ≡ st.evicted ++ called)
      × (contains string_discrete called key ≡ false)

Kept-refl : (key : String) (st : Store) → Kept key st st
Kept-refl key st = record {
  seed = refl;
  entry = refl;
  calls = ([], sym (append-nil st.evicted), unfold contains in refl);
}

Kept-trans : (key : String) (a b c : Store) → Kept key a b → Kept key b c → Kept key a c
Kept-trans key a b c p q =
    let (xs, e, no_x) = p.calls in
    let (ys, f, no_y) = q.calls in
    record {
      seed = q.seed ∙ p.seed;
      entry = q.entry ∙ p.entry;
      calls = (
        xs ++ ys,
        f ∙ ap (λ l. l ++ ys) e ∙ append_assoc a.evicted xs ys,
        contains-append string_discrete xs ys key ∙ rw (no_x, no_y) refl,
      );
    }

-- a call for another file
evict_chunks-Kept :
    (evict : Option (String → Bool)) (key k : String) (st : Store)
    → ¬ (k ≡ key)
    → Kept key st (evict_chunks evict k st)
evict_chunks-Kept none key k st ne = unfold evict_chunks in Kept-refl key st
evict_chunks-Kept (some f) key k st ne = record {
  seed = unfold evict_chunks in unfold get_seed_source in refl;
  entry = unfold evict_chunks in unfold get_cache_entry in refl;
  calls = (k ∷ [], (unfold evict_chunks in refl), other);
}
  where
    other : contains string_discrete (k ∷ []) key ≡ false
    other = unfold contains in if_neg (string_discrete key k) (λ e. ne (sym e)) _ _

remove_cache_entry-Kept :
    (key k : String) (st : Store) → ¬ (k ≡ key) → Kept key st (remove_cache_entry k st)
unfolding remove_cache_entry get_seed_source get_cache_entry
remove_cache_entry-Kept key k st ne = elim (Bool-cases (st.is_open && not (st.refuses_cache k))) [
  | inr refused ↦ rw refused (Kept-refl key st)
  | inl done ↦ rw done (record {
    seed = refl;
    entry =
        ap (read_back st.is_open)
          (lookup-delete string_discrete k key st.cache ∙ if_neg (string_discrete k key) ne _ _);
    calls = ([], sym (append-nil st.evicted), (unfold contains in refl));
  })
]

remove_seed_source-Kept :
    (key k : String) (st : Store) → ¬ (k ≡ key) → Kept key st (remove_seed_source k st)
unfolding remove_seed_source get_seed_source get_cache_entry
remove_seed_source-Kept key k st ne = elim (Bool-cases (st.is_open && not (st.refuses_seeds k))) [
  | inr refused ↦ rw refused (Kept-refl key st)
  | inl done ↦ rw done (record {
    seed =
        ap (read_back st.is_open)
          (lookup-delete string_discrete k key st.seeds ∙ if_neg (string_discrete k key) ne _ _);
    entry = refl;
    calls = ([], sym (append-nil st.evicted), (unfold contains in refl));
  })
]

pub drop_file-Kept : (key k : String) (st : Store) → ¬ (k ≡ key) → Kept key st (drop_file k st)
unfolding drop_file
drop_file-Kept key k st ne =
    Kept-trans key st (remove_cache_entry k st) (remove_seed_source k (remove_cache_entry k st))
      (remove_cache_entry-Kept key k st ne)
      (remove_seed_source-Kept key k (remove_cache_entry k st) ne)

module _ (evict : Option (String → Bool)) where
  -- the store after a round that evicts a file
  abbrev evict_file : String → Store → Store
  evict_file k st = drop_file k (evict_chunks evict k st)

  evict_file-Kept : (key k : String) (st : Store) → ¬ (k ≡ key) → Kept key st (evict_file k st)
  evict_file-Kept key k st ne =
      Kept-trans key st (evict_chunks evict k st) (evict_file k st)
        (evict_chunks-Kept evict key k st ne) (drop_file-Kept key k (evict_chunks evict k st) ne)

module _ (evict : Option (String → Bool)) (limit : ℕ) where
  evict_loop-Kept :
      (key : String) (es : List CacheEntry) (total : ℕ) (st : Store)
      → is_original (get_seed_source key st) ≡ true
      → Kept key st (evict_loop evict limit es total st)
  unfolding evict_loop
  evict_loop-Kept key [] total st h = Kept-refl key st
  evict_loop-Kept key (e ∷ es) total st h = elim (Bool-cases (above64 total limit)) [
    | inr under ↦ rw under (Kept-refl key st)
    | inl over ↦ elim (Bool-cases (is_original (get_seed_source e.file_key st))) [
      | inl orig ↦ rw (over, orig) (evict_loop-Kept key es total st h)
      | inr plain ↦ elim (Bool-cases (evict_succeeds evict e.file_key)) [
        | inl good ↦
            let gone = evict_file-Kept evict key e.file_key st (other plain) in
            rw (over, plain, good)
              (Kept-trans key st (evict_file evict e.file_key st) _ gone (
                evict_loop-Kept key es (sub64 total e.size) (evict_file evict e.file_key st)
                  (ap is_original gone.seed ∙ h)))
        | inr bad ↦
            let called = evict_chunks-Kept evict key e.file_key st (other plain) in
            rw (over, plain, bad)
              (Kept-trans key st (evict_chunks evict e.file_key st) _ called (
                evict_loop-Kept key es total (evict_chunks evict e.file_key st)
                  (ap is_original called.seed ∙ h)))
      ]
    ]
  ]
    where
      other : is_original (get_seed_source e.file_key st) ≡ false → ¬ (e.file_key ≡ key)
      other plain same = cc

-- A file whose seed source reads as an original seeder's is never evicted: whatever the limit, the
-- evict function and the writes that fail, EvictIfNeeded never calls the evict function for it, and
-- leaves its seed source and its cache entry as they were.
pub evict_if_needed-Kept :
    (evict : Option (String → Bool)) (limit : ℕ) (key : String) (st : Store)
    → is_original (get_seed_source key st) ≡ true
    → Kept key st (evict_if_needed evict limit st)
unfolding evict_if_needed evict_listed
evict_if_needed-Kept evict limit key st h =
    elim (Bool-cases (above64 (total_cache_size st) limit)) [
      | inr under ↦ rw under (Kept-refl key st)
      | inl over ↦ elim (Option-cases (list_cache_entries st)) [
        | inl failed ↦ rw (over, failed) (Kept-refl key st)
        | inr (entries, e) ↦ rw (over, e) (evict_loop-Kept evict limit key _ _ st h)
      ]
    ]
