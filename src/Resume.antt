-- ===== src/Resume.antt =====
-- The resume log of a download (Storage/resume/resume.go). A disk holds the lines of each file; it
-- may refuse to open a file for writing, to take a line (`full`), or to read it; what is written is whole lines. The text of a header, and the number that a
-- trimmed line spells, are parameters. `time.Now()` is an argument. A file that is open for
-- appending is its path. A line fits the buffer of the scanner.
pub mod Log
use dfs_go.Common.{ℕ, String, string_discrete, decimal, List, [], ◌∷◌, ◌++◌, Bool, true, false}
use dfs_go.Common.{
  Option, none, some, ltb, ◌==◌, ◌&&◌, not, ◌⊎◌, inl, inr, if◌then◌else◌, test, contains,
  ℕ_discrete,
}
use dfs_go.Common.Assoc.{insert, delete}
use dfs_go.Ipc.Words.{ℤ, pos, negsuc}
use mathlib.Core.List.{lookup}
use Prim.Native.String as Str

pub record Header : Type 0 where
  pub storage_key : String
  pub total_chunks : ℕ
  pub total_size : ℕ
  pub chunk_size : ℕ
  pub merkle_root : String
  pub created_at : ℕ

pub record Sidecar : Type 0 where
  pub header : Header
  pub output_path : String
  pub file : String

pub record Disk : Type 0 where
  pub files : List (String × List String)
  pub refuses : String → Bool
  pub full : String → Bool
  pub unreadable : String → Bool

pub data Error : Type 0 where
  create_failed read_failed empty_sidecar bad_header reopen_failed write_failed remove_failed :
      Error

unfoldable pub part_path : String → String
part_path output_path = Str.◌++◌ output_path ".part"

unfoldable pub sidecar_path : String → String
sidecar_path output_path = Str.◌++◌ output_path ".part.resume"

unfoldable pub file_lines : String → Disk → Option (List String)
file_lines path d = lookup string_discrete path d.files

unfoldable pub put_lines : String → List String → Disk → Disk
put_lines path lines d = record d { files = insert string_discrete path lines d.files }

-- a write at the end of a file that is still there
unfoldable pub append_to : Option (List String) → String → String → Disk → Disk
append_to none path line d = d
append_to (some lines) path line d = put_lines path (lines ++ (line ∷ [])) d

unfoldable pub record_chunk : ℕ → Sidecar → Disk → Option Error × Disk
record_chunk index s d =
    if d.full s.file
    then (some write_failed, d)
    else (none, append_to (file_lines s.file d) s.file (decimal index) d)

unfoldable pub matches : String → String → ℕ → ℕ → Sidecar → Bool
matches storage_key merkle_root total_chunks total_size s =
    test (string_discrete s.header.storage_key storage_key)
    && test (string_discrete s.header.merkle_root merkle_root)
    && (s.header.total_chunks == total_chunks)
    && (s.header.total_size == total_size)

-- `os.Remove`, for which a missing file is no error
unfoldable pub cleanup : String → Disk → Option Error × Disk
cleanup output_path d =
    if d.refuses (sidecar_path output_path)
    then (some remove_failed, d)
    else (none, record d { files = delete string_discrete (sidecar_path output_path) d.files })

-- `claimed[idx] = true`, for a line that spells an index in range; other lines are skipped
unfoldable pub claim : ℕ → Option ℤ → List ℕ → List ℕ
claim total none claimed = claimed
claim total (some (negsuc n)) claimed = claimed
claim total (some (pos n)) claimed =
    if ltb n total && not (contains ℕ_discrete claimed n) then claimed ++ (n ∷ []) else claimed

module _ (marshal : Header → String) (unmarshal : String → Option Header)
    (atoi : String → Option ℤ) where
  unfoldable pub create : String → String → String → ℕ → ℕ → ℕ → ℕ → Disk → Option Sidecar × Disk
  create output_path storage_key merkle_root total_chunks total_size chunk_size now d =
      if d.refuses (sidecar_path output_path)
      then (none, d)
      else if d.full (sidecar_path output_path)
      then (none, put_lines (sidecar_path output_path) [] d)
      else (
        some (record {
          header = header;
          output_path = output_path;
          file = sidecar_path output_path;
        }),
        put_lines (sidecar_path output_path) (marshal header ∷ []) d,
      )
    where
      header : Header
      header = record {
        storage_key = storage_key;
        total_chunks = total_chunks;
        total_size = total_size;
        chunk_size = chunk_size;
        merkle_root = merkle_root;
        created_at = now;
      }

  unfoldable pub claims : ℕ → List String → List ℕ → List ℕ
  claims total [] claimed = claimed
  claims total (line ∷ lines) claimed = claims total lines (claim total (atoi line) claimed)

  -- the sidecar of a parsed header, once the file is open again
  unfoldable pub reopened :
      String → Option Header → List String → Disk → Error ⊎ Option (Sidecar × List ℕ)
  reopened output_path none lines d = inl bad_header
  reopened output_path (some header) lines d =
      if d.refuses (sidecar_path output_path)
      then inl reopen_failed
      else inr (
          some (
            record { header = header; output_path = output_path; file = sidecar_path output_path },
            claims header.total_chunks lines [],
          ))

  unfoldable pub parse_lines :
      String → Option (List String) → Disk → Error ⊎ Option (Sidecar × List ℕ)
  parse_lines output_path none d = inr none
  parse_lines output_path (some []) d =
      inl (if d.unreadable (sidecar_path output_path) then read_failed else empty_sidecar)
  parse_lines output_path (some (first ∷ lines)) d =
      if d.unreadable (sidecar_path output_path)
      then inl read_failed
      else reopened output_path (unmarshal first) lines d

  -- `Open`: an error, or nothing for a missing file, or the sidecar and the indices it claims
  unfoldable pub open_sidecar : String → Disk → Error ⊎ Option (Sidecar × List ℕ)
  open_sidecar output_path d = parse_lines output_path (file_lines (sidecar_path output_path) d) d
