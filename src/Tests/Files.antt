-- ===== src/Tests/Files.antt =====
-- A file of five bytes in chunks of two, and manifests of three and four chunks.
use dfs_go.Common.{
  ℕ, ◌%◌, ◌<◌, ◌≡◌, refl, true, IsDistinct, String, Option, List, [], ◌∷◌, ◌++◌, false, some, none,
  arith, All, length, contains, ℕ_discrete, total, decimal, if◌then◌else◌, test, string_discrete,
}
use dfs_go.Ipc.Words.{pos}
use dfs_go.Chunker.{
  Chunk, ChunkInfo, eof, end_error, missing_chunk, chunk_reader, nominal_size, reassemble,
  verify_merkle_root,
}
use dfs_go.Chunker.Parts.{IsPart}
use dfs_go.Chunker.Order.{indexes}
use dfs_go.Chunker.RoundTrip.{append, reassemble-chunk_reader, reassemble_missing}
use dfs_go.Chunker.Root.{verify_merkle_root_repeat}
use mathlib.Core.List.{Perm}

-- a stand-in for SHA-256: one byte, the sum of all
abbrev sum : List ℕ → List ℕ
sum bytes = (total (λ b. b) bytes % 256) ∷ []

abbrev file : List ℕ
file = 10 ∷ 11 ∷ 12 ∷ 13 ∷ 14 ∷ []

reassemble-chunk_reader_example :
    (cs : List Chunk) × (chunk_reader sum (pos 2) file eof ≡ some (cs, end_error eof (length cs)))
    × All (IsPart sum (nominal_size (pos 2))) cs
    × ((ps : List Chunk) (dst : List ℕ)
        → Perm cs ps
        → reassemble append ps dst ≡ (none, dst ++ file))
reassemble-chunk_reader_example = reassemble-chunk_reader sum (pos 2) file eof

abbrev piece : ℕ → Chunk
piece i = record { index = i; hash = []; size = 1; bytes = i ∷ [] }

skips_one : contains ℕ_discrete (indexes (piece 2 ∷ piece 0 ∷ [])) 1 ≡ false
unfolding contains ℕ_discrete
skips_one = refl

reassemble_missing_example :
    (k : ℕ) × (reassemble append (piece 2 ∷ piece 0 ∷ []) [] ≡ (some (missing_chunk k), []))
    × ((j : ℕ) → j < k → contains ℕ_discrete (indexes (piece 2 ∷ piece 0 ∷ [])) j ≡ true)
    × (IsDistinct ℕ_discrete (indexes (piece 2 ∷ piece 0 ∷ []))
        → contains ℕ_discrete (indexes (piece 2 ∷ piece 0 ∷ [])) k ≡ false)
reassemble_missing_example =
    reassemble_missing append (piece 2 ∷ piece 0 ∷ []) [] 1 (omega arith) skips_one

abbrev info : ℕ → String → ChunkInfo
info i hash = record { index = i; hash = hash; size = 4; enc_hash = hash; compressed = false }

abbrev text_bytes : String → List ℕ
text_bytes s = if test (string_discrete s "aa") then 1 ∷ [] else 2 ∷ []

abbrev no_hex : String → Option (List ℕ)
no_hex s = none

abbrev first_byte : List ℕ → String
first_byte [] = ""
first_byte (b ∷ bs) = decimal b

abbrev two : List ChunkInfo
two = info 0 "aa" ∷ info 1 "bb" ∷ []

verify_merkle_root_repeat_example :
    verify_merkle_root sum text_bytes first_byte no_hex
      (two ++ (info 2 "cc" ∷ info 2 "cc" ∷ []))
      "3"
    ≡ verify_merkle_root sum text_bytes first_byte no_hex (two ++ (info 2 "cc" ∷ [])) "3"
verify_merkle_root_repeat_example =
    verify_merkle_root_repeat sum text_bytes first_byte no_hex two (info 2 "cc") "3" refl
      (omega arith)
