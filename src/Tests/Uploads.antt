-- ===== src/Tests/Uploads.antt =====
-- The log of an upload of three chunks, of which one is recorded twice.
use dfs_go.Common.{
  ℕ, ◌≡◌, refl, String, string_discrete, List, [], ◌∷◌, false, Option, none, some, test,
  if◌then◌else◌, contains, ℕ_discrete,
}
use dfs_go.Chunker.{ChunkInfo}
use dfs_go.Resume.{Disk}
use dfs_go.Pending.{Header, ChunkRecord, record_of}
use dfs_go.Pending.{sanitize_key, sanitize_from, rest_of_rune, clean}
use Prim.Native.String as Str

abbrev header : Header
header = record {
  storage_key = 107 ∷ [];
  total_size = 10;
  chunk_size = 4;
  merkle_root = "";
  created_at = 7;
}

abbrev info : ℕ → String → ChunkInfo
info i h = record { index = i; hash = h; size = 4; enc_hash = h; compressed = false }

abbrev infos : List ChunkInfo
infos = info 2 "a" ∷ info 0 "b" ∷ info 2 "c" ∷ []

abbrev marshal : Header → String
marshal h = "{}"

abbrev unmarshal : String → Option Header
unmarshal s = some header

abbrev marshal_record : ChunkRecord → String
marshal_record r = r.hash

abbrev unmarshal_record : String → Option ChunkRecord
unmarshal_record s =
    if test (string_discrete s "a")
    then some (record_of (info 2 "a"))
    else if test (string_discrete s "b")
    then some (record_of (info 0 "b"))
    else if test (string_discrete s "c")
    then some (record_of (info 2 "c"))
    else none

abbrev join : String → String → String
join a b = Str.◌++◌ a (Str.◌++◌ "/" b)

abbrev text : List ℕ → String
text bytes = "k"

abbrev disk : Disk
disk = record { files = []; refuses = λ p. false; full = λ p. false; unreadable = λ p. false }

-- of a letter of two bytes, the second stays 0
two_bytes_test : sanitize_key (97 ∷ 47 ∷ 195 ∷ 169 ∷ 98 ∷ []) ≡ 97 ∷ 95 ∷ 195 ∷ 0 ∷ 98 ∷ []
unfolding sanitize_key sanitize_from rest_of_rune clean contains ℕ_discrete
two_bytes_test = refl
