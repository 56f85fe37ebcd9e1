-- ===== src/Tests/Logs.antt =====
-- The log of a download of three chunks, of which two have arrived.
use dfs_go.Common.{
  ℕ, ◌≡◌, refl, String, string_discrete, List, [], ◌∷◌, true, false, Option, none, some, inr, arith,
  contains, ℕ_discrete, test, if◌then◌else◌, decimal,
}
use dfs_go.Ipc.Words.{ℤ, pos}
use dfs_go.Resume.{Header, Sidecar, Disk, open_sidecar, matches}
use dfs_go.Resume.Log.{record_all, started, open_sidecar-record_all}

abbrev header : Header
header = record {
  storage_key = "k";
  total_chunks = 3;
  total_size = 10;
  chunk_size = 4;
  merkle_root = "r";
  created_at = 7;
}

abbrev marshal : Header → String
marshal h = "{}"

abbrev unmarshal : String → Option Header
unmarshal s = some header

abbrev atoi : String → Option ℤ
atoi s =
    if test (string_discrete s "0")
    then some (pos 0)
    else if test (string_discrete s "2")
    then some (pos 2)
    else none

abbrev disk : Disk
disk = record { files = []; refuses = λ p. false; full = λ p. false; unreadable = λ p. false }

zero_spelt : atoi (decimal 0) ≡ some (pos 0)
unfolding decimal string_discrete
zero_spelt = refl

two_spelt : atoi (decimal 2) ≡ some (pos 2)
unfolding decimal string_discrete
two_spelt = refl

open_sidecar-record_all_example :
    (s : Sidecar) × (claimed : List ℕ) × ((started marshal unmarshal atoi "f" header disk).0
      ≡ some s)
    × (open_sidecar marshal unmarshal atoi "f"
          (record_all (2 ∷ 0 ∷ []) s (started marshal unmarshal atoi "f" header disk).1)
        ≡ inr (some (s, claimed)))
    × (matches "k" "r" 3 10 s ≡ true)
    × ((k : ℕ) → contains ℕ_discrete claimed k ≡ contains ℕ_discrete (2 ∷ 0 ∷ []) k)
open_sidecar-record_all_example =
    open_sidecar-record_all marshal unmarshal atoi "f" header (2 ∷ 0 ∷ []) disk refl refl refl refl
      ((omega arith, two_spelt), ((omega arith, zero_spelt), tt))
