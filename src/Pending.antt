-- ===== src/Pending.antt =====
-- The log of an upload (Storage/pending/pending.go), on a disk of lines as the one of Resume. A key
-- is its bytes; package filepath, the name that some bytes make, and the text of a header and of a
-- record are parameters. A line fits the buffer of the scanner. A file that cannot be read does not open.
pub mod Keys
pub mod Log
use dfs_go.Common.{ℕ, zero, suc, String, string_discrete, List, [], ◌∷◌, ◌++◌, Bool, true, false}
use dfs_go.Common.{
  Option, none, some, ltb, leb, ◌==◌, ◌&&◌, ◌⊎◌, inl, inr, if◌then◌else◌, contains, ℕ_discrete,
}
use dfs_go.Common.Assoc.{delete}
use dfs_go.Chunker.{ChunkInfo}
use dfs_go.Resume.{Disk, file_lines, put_lines, append_to}
use Prim.Native.String as Str

pub record Header : Type 0 where
  pub storage_key : List ℕ
  pub total_size : ℕ
  pub chunk_size : ℕ
  pub merkle_root : String
  pub created_at : ℕ

pub record ChunkRecord : Type 0 where
  pub index : ℕ
  pub hash : String
  pub size : ℕ
  pub enc_hash : String
  pub compressed : Bool

pub record Sidecar : Type 0 where
  pub header : Header
  pub file : String

pub record LoadResult : Type 0 where
  pub header : Header
  pub completed : List ℕ
  pub chunk_infos : List ChunkInfo

pub data Error : Type 0 where
  mkdir_failed create_failed header_failed write_failed open_failed empty_sidecar bad_header
        finalize_failed :
      Error

-- the bytes of `/ \ : * ? " < > |`
abbrev pub separators : List ℕ
separators = 47 ∷ 92 ∷ 58 ∷ 42 ∷ 63 ∷ 34 ∷ 60 ∷ 62 ∷ 124 ∷ []

unfoldable pub clean : ℕ → ℕ
clean b = if contains ℕ_discrete separators b then 95 else b

abbrev within : ℕ → ℕ → ℕ → Bool
within lo hi b = leb lo b && leb b hi

-- the continuation bytes that a first byte asks for, each with its bounds
abbrev tail_bounds : ℕ → List (ℕ × ℕ)
tail_bounds b =
    if within 194 223 b
    then (128, 191) ∷ []
    else if b == 224
    then (160, 191) ∷ (128, 191) ∷ []
    else if b == 237
    then (128, 159) ∷ (128, 191) ∷ []
    else if within 225 239 b
    then (128, 191) ∷ (128, 191) ∷ []
    else if b == 240
    then (144, 191) ∷ (128, 191) ∷ (128, 191) ∷ []
    else if b == 244
    then (128, 143) ∷ (128, 191) ∷ (128, 191) ∷ []
    else if within 241 243 b
    then (128, 191) ∷ (128, 191) ∷ (128, 191) ∷ []
    else []

abbrev fits : List (ℕ × ℕ) → List ℕ → Bool
fits [] bytes = true
fits (bound ∷ bounds) [] = false
fits (bound ∷ bounds) (b ∷ bytes) = within bound.0 bound.1 b && fits bounds bytes

abbrev count : List (ℕ × ℕ) → ℕ
count [] = 0
count (bound ∷ bounds) = suc (count bounds)

-- The bytes after the first of the rune that `range` finds at `b`; none for an invalid encoding,
-- which is one byte.
unfoldable pub rest_of_rune : ℕ → List ℕ → ℕ
rest_of_rune b bytes = if fits (tail_bounds b) bytes then count (tail_bounds b) else 0

-- The loop of `sanitizeKey`, with the number of bytes up to the next rune: those stay 0 as `make`
-- left them.
unfoldable pub sanitize_from : ℕ → List ℕ → List ℕ
sanitize_from n [] = []
sanitize_from zero (b ∷ bytes) = clean b ∷ sanitize_from (rest_of_rune b bytes) bytes
sanitize_from (suc n) (b ∷ bytes) = 0 ∷ sanitize_from n bytes

unfoldable pub sanitize_key : List ℕ → List ℕ
sanitize_key key = sanitize_from 0 key

unfoldable pub record_of : ChunkInfo → ChunkRecord
record_of info = record {
  index = info.index;
  hash = info.hash;
  size = info.size;
  enc_hash = info.enc_hash;
  compressed = info.compressed;
}

unfoldable pub info_of : ChunkRecord → ChunkInfo
info_of rec = record {
  index = rec.index;
  hash = rec.hash;
  size = rec.size;
  enc_hash = rec.enc_hash;
  compressed = rec.compressed;
}

module _ (join : String → String → String) (text : List ℕ → String) where
  unfoldable pub dir : String → String
  dir storage_root = join storage_root ".pending_uploads"

  unfoldable pub sidecar_path : String → List ℕ → String
  sidecar_path storage_root storage_key =
      join (dir storage_root) (Str.◌++◌ (text (sanitize_key storage_key)) ".pending")

  unfoldable pub create : (Header → String) → String → Header → Disk → (Error ⊎ Sidecar) × Disk
  create marshal storage_root h d =
      if d.refuses (dir storage_root)
      then (inl mkdir_failed, d)
      else if d.refuses (sidecar_path storage_root h.storage_key)
      then (inl create_failed, d)
      else if d.full (sidecar_path storage_root h.storage_key)
      then (inl header_failed, put_lines (sidecar_path storage_root h.storage_key) [] d)
      else (
        inr (record { header = h; file = sidecar_path storage_root h.storage_key }),
        put_lines (sidecar_path storage_root h.storage_key) (marshal h ∷ []) d,
      )

  -- `os.Remove`, for which a missing file is no error
  unfoldable pub finalize : String → List ℕ → Disk → Option Error × Disk
  finalize storage_root storage_key d =
      if d.refuses (sidecar_path storage_root storage_key) then (some finalize_failed, d) else (
        none,
        record d { files = delete string_discrete (sidecar_path storage_root storage_key) d.files },
      )

  unfoldable pub exists : String → List ℕ → Disk → Bool
  exists storage_root storage_key d = elim (file_lines (sidecar_path storage_root storage_key) d) [
    | none ↦ false
    | some lines ↦ true
  ]

unfoldable pub record_chunk :
    (ChunkRecord → String) → ChunkInfo → Sidecar → Disk → Option Error × Disk
record_chunk marshal info s d =
    if d.full s.file
    then (some write_failed, d)
    else (none, append_to (file_lines s.file d) s.file (marshal (record_of info)) d)

-- a line of the log: what does not parse is skipped, and a chunk that is there already
unfoldable pub load_line : Option ChunkRecord → List ℕ × List ChunkInfo → List ℕ × List ChunkInfo
load_line none so_far = so_far
load_line (some rec) so_far =
    if contains ℕ_discrete so_far.0 rec.index
    then so_far
    else (rec.index ∷ so_far.0, so_far.1 ++ (info_of rec ∷ []))

module _ (unmarshal : String → Option Header) (unmarshal_record : String → Option ChunkRecord) where
  unfoldable pub load_lines : List String → List ℕ × List ChunkInfo → List ℕ × List ChunkInfo
  load_lines [] so_far = so_far
  load_lines (line ∷ lines) so_far = load_lines lines (load_line (unmarshal_record line) so_far)

  unfoldable pub loaded : Option Header → List String → Error ⊎ Option LoadResult
  loaded none lines = inl bad_header
  loaded (some h) lines = inr (
      some (record {
        header = h;
        completed = (load_lines lines ([], [])).0;
        chunk_infos = (load_lines lines ([], [])).1;
      }))

  unfoldable pub load_file : Option (List String) → Bool → Error ⊎ Option LoadResult
  load_file none unreadable = inr none
  load_file (some []) unreadable = inl (if unreadable then open_failed else empty_sidecar)
  load_file (some (first ∷ lines)) unreadable =
      if unreadable then inl open_failed else loaded (unmarshal first) lines

  -- `Load`: an error, or nothing for a missing file, or what the log holds
  unfoldable pub load :
      (String → String → String)
      → (List ℕ → String)
      → String
      → List ℕ
      → Disk
      → Error ⊎ Option LoadResult
  load join text storage_root storage_key d =
      load_file (file_lines (sidecar_path join text storage_root storage_key) d)
        (d.unreadable (sidecar_path join text storage_root storage_key))
