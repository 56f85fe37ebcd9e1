-- ===== src/Chunker/RoundTrip.antt =====
-- A file that is cut into chunks and put together again (Storage/chunker/chunker.go).
use dfs_go.Common.{ℕ, suc, ◌+◌, ◌<◌, ◌≡◌, refl, sym, ap, ◌∙◌, arith, Bool, true, false}
use dfs_go.Common.{none, some, List, [], ◌∷◌, ◌++◌, length, All, ◌≤◌, leb, leb-IsTotal, IsDistinct}
use dfs_go.Common.{contains, ℕ_discrete, Option-cases, inl, inr}
use dfs_go.Common.Sort.{sort_by, sort_by-perm, length-sort_by, sort_by-IsSortedBy}
use dfs_go.Chunker.{Chunk, missing_chunk, earlier, first_gap, write_all, write_checked}
use dfs_go.Chunker.{reassemble, Ending, end_error, chunk_reader, nominal_size}
use dfs_go.Chunker.Parts.{IsRun, IsPart, joined, read_loop-Sends}
use dfs_go.Chunker.Order.{
  indexes, sort_by-indexes, contains-indexes, IsRun-IsDistinct, sort_by-IsRun,
}
use dfs_go.Chunker.Order.{first_gap-IsRun, IsRun-first_gap, IsRun-contains}
use dfs_go.Chunker.Order.{first_gap-present, first_gap-absent, indexes-sort_by, IsDistinct-indexes}
use dfs_go.Ipc.Words.{ℤ, pos, negsuc}
use mathlib.Core.List.{append_assoc, append-nil, Perm, Permᴰ}
use mathlib.Core.List.Perm
use mathlib.Core.Logic.{∥∥₁_elim}

-- a writer that takes everything, such as a buffer
abbrev pub append : List ℕ → List ℕ → Bool × List ℕ
append bytes dst = (true, dst ++ bytes)

write_all-append :
    (cs : List Chunk) (dst : List ℕ) → write_all append cs dst ≡ (none, dst ++ joined cs)
unfolding write_all
write_all-append [] dst = ap (λ q. (none, q)) (sym (append-nil dst))
write_all-append (c ∷ cs) dst =
    write_all-append cs (dst ++ c.bytes)
    ∙ ap (λ q. (none, q)) (append_assoc dst c.bytes (joined cs))

reassemble_sorted :
    {W : Type 0} (write : List ℕ → W → Bool × W) (cs : List Chunk) (dst : W)
    → reassemble write cs dst
      ≡ write_checked write (first_gap 0 (sort_by earlier cs)) (sort_by earlier cs) dst
unfolding reassemble
reassemble_sorted write [] dst =
    unfold sort_by in unfold first_gap in unfold write_checked in unfold write_all in refl
reassemble_sorted write (c ∷ cs) dst = refl

reassemble-Permᴰ :
    (ps cs : List Chunk) (dst : List ℕ)
    → IsRun 0 cs
    → Permᴰ cs ps
    → reassemble append ps dst ≡ (none, dst ++ joined cs)
reassemble-Permᴰ ps cs dst run p =
    reassemble_sorted append ps dst
    ∙ ap (λ q. write_checked append (first_gap 0 q) q dst) sorted
    ∙ ap (λ g. write_checked append g cs dst) (first_gap-IsRun 0 cs run)
    ∙ (unfold write_checked in write_all-append cs dst)
  where
    sorted : sort_by earlier ps ≡ cs
    sorted = sym (sort_by-indexes p (IsRun-IsDistinct 0 cs run)) ∙ sort_by-IsRun 0 cs run

nominal_size-pos : (n : ℤ) → 0 < nominal_size n
unfolding nominal_size
nominal_size-pos (negsuc n) = omega arith
nominal_size-pos (pos n) = ground arith

from_zero : (n : ℕ) → 0 + n ≡ n
from_zero n = omega arith

-- Whatever the chunk size asked for, the reading loop ends on every file. The chunks that it has
-- sent are not empty, at most as long as the nominal chunk size, and carry the hash of their bytes;
-- put together in any order in a writer that takes everything, they give the file back. An error
-- is sent exactly if the reader was broken, with the number of chunks.
pub reassemble-chunk_reader :
    (sha256 : List ℕ → List ℕ) (chunk_size : ℤ) (bytes : List ℕ) (ending : Ending)
    → (cs : List Chunk) × (chunk_reader sha256 chunk_size bytes ending
        ≡ some (cs, end_error ending (length cs)))
      × All (IsPart sha256 (nominal_size chunk_size)) cs
      × ((ps : List Chunk) (dst : List ℕ)
          → Perm cs ps
          → reassemble append ps dst ≡ (none, dst ++ bytes))
unfolding chunk_reader
reassemble-chunk_reader sha256 chunk_size bytes ending =
    let (cs, e, run, join, parts) =
      read_loop-Sends sha256 (nominal_size chunk_size) (suc (length bytes)) 0 bytes ending
        (nominal_size-pos chunk_size) (omega arith) in
    (
      cs,
      e ∙ ap (λ n. some (cs, end_error ending n)) (from_zero (length cs)),
      parts,
      λ ps dst p.
          ∥∥₁_elim p (hlevel) (λ d. reassemble-Permᴰ ps cs dst run d)
          ∙ ap (λ q. (none, dst ++ q)) join,
    )

sorted_absent :
    (cs : List Chunk) (k : ℕ)
    → first_gap 0 (sort_by earlier cs) ≡ some k
    → Permᴰ cs (sort_by earlier cs)
    → IsDistinct ℕ_discrete (indexes cs)
    → contains ℕ_discrete (indexes cs) k ≡ false
sorted_absent cs k e p d =
    contains-indexes p k
    ∙ (first_gap-absent 0 (sort_by earlier cs) k (low (indexes (sort_by earlier cs)))
        (rw (indexes-sort_by cs) (sort_by-IsSortedBy leb leb-IsTotal (indexes cs)))
        (IsDistinct-indexes p d) e).1
  where
    low : (ks : List ℕ) → All (λ j. 0 ≤ j) ks
    low [] = tt
    low (k ∷ ks) = (omega arith, low ks)

-- Where some index below the number of chunks is missing, Reassemble writes nothing, whatever the
-- writer, and reports an index below which none is missing; where no two chunks have one index, the
-- index that it reports is missing itself.
pub reassemble_missing :
    {W : Type 0} (write : List ℕ → W → Bool × W) (cs : List Chunk) (dst : W) (i : ℕ)
    → i < length cs
    → contains ℕ_discrete (indexes cs) i ≡ false
    → (k : ℕ) × (reassemble write cs dst ≡ (some (missing_chunk k), dst))
      × ((j : ℕ) → j < k → contains ℕ_discrete (indexes cs) j ≡ true)
      × (IsDistinct ℕ_discrete (indexes cs) → contains ℕ_discrete (indexes cs) k ≡ false)
reassemble_missing write cs dst i lt gone = elim (Option-cases (first_gap 0 sorted)) [
  | inl none_missing ↦ absurd (
      ground (
        arith,
        IsRun-contains 0 sorted i (IsRun-first_gap 0 sorted none_missing),
        length-sort_by earlier cs,
        same i,
        gone,
      ))
  | inr (k, e) ↦ (
    k,
    reassemble_sorted write cs dst
        ∙ ap (λ g. write_checked write g sorted dst) e
        ∙ (unfold write_checked in refl),
    λ j below. sym (same j) ∙ first_gap-present 0 sorted k j e (omega arith) below,
    λ d. ∥∥₁_elim (Perm.symm (sort_by-perm earlier cs)) (hlevel) (λ p. sorted_absent cs k e p d),
  )
]
  where
    sorted : List Chunk
    sorted = sort_by earlier cs

    same : (j : ℕ) → contains ℕ_discrete (indexes sorted) j ≡ contains ℕ_discrete (indexes cs) j
    same j = ∥∥₁_elim (sort_by-perm earlier cs) (hlevel) (λ d. contains-indexes d j)
