-- ===== src/Pending/Log.antt =====
-- An upload that stops and goes on (Storage/pending/pending.go).
use dfs_go.Common.{ℕ, ◌≡◌, String}
use dfs_go.Common.{List, [], ◌∷◌, Bool, true, false, Option, none, some}
use dfs_go.Common.{if◌then◌else◌, test, contains, ℕ_discrete}
use dfs_go.Chunker.{ChunkInfo}
use dfs_go.Resume.{Disk}
use dfs_go.Pending.{Header, ChunkRecord, Sidecar}
use dfs_go.Pending.{record_chunk, record_of}

-- the first info of a chunk
abbrev pub first_info : ℕ → List ChunkInfo → Option ChunkInfo
first_info k [] = none
first_info k (info ∷ infos) =
    if test (ℕ_discrete k info.index) then some info else first_info k infos

abbrev pub or_else : Option ChunkInfo → Option ChunkInfo → Option ChunkInfo
or_else none other = other
or_else (some info) other = some info

abbrev pub is_found : Option ChunkInfo → Bool
is_found none = false
is_found (some info) = true

-- the disk once the chunks are recorded, one after the other
unfoldable pub record_all : (ChunkRecord → String) → List ChunkInfo → Sidecar → Disk → Disk
record_all marshal [] s d = d
record_all marshal (info ∷ infos) s d = record_all marshal infos s (record_chunk marshal info s d).1

-- the text of the record of a chunk
abbrev line_of : (ChunkRecord → String) → ChunkInfo → String
line_of marshal info = marshal (record_of info)

-- what is loaded so far: the first info of each chunk among those read
record Loaded (so_far : List ℕ × List ChunkInfo) (infos : List ChunkInfo) : Type 0 where
  firsts : (k : ℕ) → first_info k so_far.1 ≡ first_info k infos
  claimed : (k : ℕ) → contains ℕ_discrete so_far.0 k ≡ is_found (first_info k infos)

module _ (marshal : Header → String) (unmarshal : String → Option Header)
    (marshal_record : ChunkRecord → String) (unmarshal_record : String → Option ChunkRecord) where
  -- the text of a record parses to the record
  abbrev pub IsReadBack : ChunkInfo → Type 0
  IsReadBack info = unmarshal_record (line_of marshal_record info) ≡ some (record_of info)
