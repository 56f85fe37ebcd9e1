-- ===== src/Chunker.antt =====
-- Chunks of a file and their manifest (Storage/chunker/chunker.go). A reader is the bytes that it
-- still gives and how it ends; SHA-256, hexadecimal text and the writer that takes a file are
-- parameters. A hash is a list of bytes, and a size is not negative. Buffer pools change where the
-- bytes lie and not what they are.
pub mod Parts
pub mod Order
pub mod RoundTrip
pub mod Root
use dfs_go.Common.{ℕ, zero, suc, ◌+◌, ◌*◌, Bool, true, false, String, string_discrete}
use dfs_go.Common.{Option, none, some, List, [], ◌∷◌, ◌++◌, map}
use dfs_go.Common.{leb, ltb, ◌==◌, if◌then◌else◌, test, length, take, drop, total}
use dfs_go.Common.Sort.{sort_by}
use dfs_go.Ipc.Words.{ℤ, pos, negsuc}
use Prim.Native.String as Str
use mathlib.Core.Option

abbrev pub default_chunk_size : ℕ
default_chunk_size = 4 * 1024 * 1024

pub record Chunk : Type 0 where
  pub index : ℕ
  pub hash : List ℕ
  pub size : ℕ
  pub bytes : List ℕ

pub record ChunkInfo : Type 0 where
  pub index : ℕ
  pub hash : String
  pub size : ℕ
  pub enc_hash : String
  pub compressed : Bool

abbrev pub zeros : ℕ → List ℕ
zeros zero = []
zeros (suc n) = 0 ∷ zeros n

-- whether two arrays of bytes are the same
unfoldable pub same_bytes : List ℕ → List ℕ → Bool
same_bytes [] [] = true
same_bytes [] (y ∷ ys) = false
same_bytes (x ∷ xs) [] = false
same_bytes (x ∷ xs) (y ∷ ys) = let rest = same_bytes xs ys in if x == y then rest else false

pub data Error : Type 0 where
  read_error missing_chunk write_error : ℕ → Error

-- how a reader ends: with `io.EOF`, with an `io.ErrUnexpectedEOF` of its own, or with another error
pub data Ending : Type 0 where
  eof cut_short broken : Ending

-- what is sent on `errCh` at the end of the bytes
abbrev pub end_error : Ending → ℕ → Option Error
end_error eof at = none
end_error cut_short at = none
end_error broken at = some (read_error at)

abbrev pub prepend : Chunk → Option (List Chunk × Option Error) → Option (List Chunk × Option Error)
prepend c none = none
prepend c (some (cs, e)) = some (c ∷ cs, e)

-- the chunk size that `ChunkReaderWithPool` uses
unfoldable pub nominal_size : ℤ → ℕ
nominal_size (negsuc n) = default_chunk_size
nominal_size (pos n) = if n == 0 then default_chunk_size else n

module _ (sha256 : List ℕ → List ℕ) where
  unfoldable pub chunk_of : ℕ → List ℕ → Chunk
  chunk_of index bytes = record {
    index = index;
    hash = sha256 bytes;
    size = length bytes;
    bytes = bytes;
  }

  -- The loop on what `io.ReadFull` gives for a buffer of `size` bytes, on fuel: the chunks sent and
  -- the error, if any. `none` is a loop that is still running.
  unfoldable pub read_loop : ℕ → ℕ → ℕ → List ℕ → Ending → Option (List Chunk × Option Error)
  read_loop zero size index bytes ending = none
  read_loop (suc fuel) size index bytes ending =
      let rest = read_loop fuel size (index + 1) (drop size bytes) ending in
      if leb size (length bytes)
      then prepend (chunk_of index (take size bytes)) rest
      else if length bytes == 0
      then some ([], end_error ending index)
      else some (chunk_of index bytes ∷ [], end_error ending (index + 1))

  -- Each round but the last takes a byte at least.
  unfoldable pub chunk_reader : ℤ → List ℕ → Ending → Option (List Chunk × Option Error)
  chunk_reader chunk_size bytes ending =
      read_loop (suc (length bytes)) (nominal_size chunk_size) 0 bytes ending

-- the comparison of the sort in `Reassemble`
abbrev pub earlier : Chunk → Chunk → Bool
earlier a b = leb a.index b.index

-- the first chunk, from position `i` on, that is not at its index
unfoldable pub first_gap : ℕ → List Chunk → Option ℕ
first_gap i [] = none
first_gap i (c ∷ cs) = let rest = first_gap (suc i) cs in if c.index == i then rest else some i

module _ {W : Type 0} (write : List ℕ → W → Bool × W) where
  unfoldable pub write_all : List Chunk → W → Option Error × W
  write_all [] dst = (none, dst)
  write_all (c ∷ cs) dst =
      let (good, dst') = write c.bytes dst in
      let rest = write_all cs dst' in if good then rest else (some (write_error c.index), dst')

  unfoldable pub write_checked : Option ℕ → List Chunk → W → Option Error × W
  write_checked none sorted dst = write_all sorted dst
  write_checked (some i) sorted dst = (some (missing_chunk i), dst)

  unfoldable pub reassemble : List Chunk → W → Option Error × W
  reassemble [] dst = (none, dst)
  reassemble (c ∷ cs) dst =
      let sorted = sort_by earlier (c ∷ cs) in write_checked (first_gap 0 sorted) sorted dst

-- `VerifyChunk`
unfoldable pub verify_chunk : (List ℕ → List ℕ) → Chunk → Bool
verify_chunk sha256 c = same_bytes (sha256 c.bytes) c.hash

unfoldable pub chunk_storage_key : String → String
chunk_storage_key enc_hash = Str.◌++◌ "chunk:" enc_hash

unfoldable pub manifest_storage_key : String → String
manifest_storage_key file_key = Str.◌++◌ "manifest:" file_key

pub record AccessEntry : Type 0 where
  pub recipient_pub_key : String
  pub wrapped_dek : String

pub record ChunkManifest : Type 0 where
  pub file_key : String
  pub total_size : ℕ
  pub chunk_size : ℕ
  pub chunks : List ChunkInfo
  pub merkle_root : String
  pub created_at : ℕ
  pub encrypted : Bool
  pub owner_pub_key : String
  pub owner_ed_pub_key : String
  pub access_list : List AccessEntry
  pub signature : String
  pub seed_mode : Bool
  pub original_seeder : String

abbrev pub zero_hash : List ℕ
zero_hash = zeros 32

-- SHA-256, the bytes of a Go string, and encoding/hex, where a text is no hexadecimal for `none`
module _ (sha256 : List ℕ → List ℕ) (bytes_of : String → List ℕ) (encode : List ℕ → String)
    (decode : String → Option (List ℕ)) where
  -- a leaf: the hash that the text gives, or the hash of the text
  unfoldable pub leaf : ChunkInfo → List ℕ
  leaf c = decoded (decode c.hash)
    where
      decoded : Option (List ℕ) → List ℕ
      decoded none = sha256 (bytes_of c.hash)
      decoded (some b) = if length b == 32 then b else sha256 (bytes_of c.hash)

  -- one layer above; an odd last node is its own neighbour
  unfoldable pub next_layer : List (List ℕ) → List (List ℕ)
  next_layer [] = []
  next_layer (left ∷ []) = sha256 (left ++ left) ∷ []
  next_layer (left ∷ right ∷ nodes) = sha256 (left ++ right) ∷ next_layer nodes

  -- `for len(nodes) > 1`, on fuel; `none` is a loop that is still running
  unfoldable pub root_loop : ℕ → List (List ℕ) → Option (List ℕ)
  root_loop fuel [] = some zero_hash
  root_loop fuel (node ∷ []) = some node
  root_loop zero (left ∷ right ∷ nodes) = none
  root_loop (suc fuel) (left ∷ right ∷ nodes) = root_loop fuel (next_layer (left ∷ right ∷ nodes))

  -- each layer is shorter than the one below
  unfoldable pub compute_merkle_root : List ChunkInfo → Option String
  compute_merkle_root [] = some (encode zero_hash)
  compute_merkle_root (c ∷ cs) = Option.map encode (root_loop (length (c ∷ cs)) (map leaf (c ∷ cs)))

  unfoldable pub build_manifest : String → List ChunkInfo → ℕ → Option ChunkManifest
  build_manifest file_key chunks created_at =
      Option.map
        (λ root. record {
          file_key = file_key;
          total_size = total (λ c. c.size) chunks;
          chunk_size = default_chunk_size;
          chunks = chunks;
          merkle_root = root;
          created_at = created_at;
          encrypted = false;
          owner_pub_key = "";
          owner_ed_pub_key = "";
          access_list = [];
          signature = "";
          seed_mode = false;
          original_seeder = "";
        })
        (compute_merkle_root chunks)

  -- no error
  unfoldable pub verify_merkle_root : List ChunkInfo → String → Option Bool
  verify_merkle_root chunks expected =
      Option.map (λ root. test (string_discrete root expected)) (compute_merkle_root chunks)
