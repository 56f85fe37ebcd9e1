-- ===== src/Resume/Log.antt =====
-- A download that stops and goes on (Storage/resume/resume.go).
use dfs_go.Common.{ℕ, ◌<◌, ◌≡◌, refl, sym, ap, ◌∙◌, arith, String, string_discrete, decimal}
use dfs_go.Common.{List, [], ◌∷◌, ◌++◌, map, true, false, Option, some, inl, inr}
use dfs_go.Common.{if◌then◌else◌, test, contains, ℕ_discrete, All, if_pos}
use dfs_go.Common.{contains-append, Bool-cases}
use dfs_go.Common.Assoc.{lookup-insert}
use dfs_go.Ipc.Words.{ℤ, pos}
use dfs_go.Resume.{Header, Sidecar, Disk, sidecar_path, file_lines, put_lines, append_to}
use dfs_go.Resume.{
  record_chunk, matches, create, claim, claims, reopened, parse_lines, open_sidecar,
}
use mathlib.Core.List.{lookup, append_assoc, append-nil}
use mathlib.Core.Path.{subst}

-- the disk once the chunks are recorded, one after the other
unfoldable pub record_all : List ℕ → Sidecar → Disk → Disk
record_all [] s d = d
record_all (i ∷ is) s d = record_all is s (record_chunk i s d).1

pub file_lines-put_lines :
    (path : String) (lines : List String) (d : Disk)
    → file_lines path (put_lines path lines d) ≡ some lines
unfolding file_lines put_lines
file_lines-put_lines path lines d =
    lookup-insert string_discrete path path lines d.files
    ∙ if_pos (string_discrete path path) refl (some lines) (lookup string_discrete path d.files)

-- a disk on which the log has these lines, and can be read and written
pub record HasLog (path : String) (lines : List String) (d : Disk) : Type 0 where
  pub holds : file_lines path d ≡ some lines
  pub writable : d.refuses path ≡ false
  pub room : d.full path ≡ false
  pub readable : d.unreadable path ≡ false

record_chunk-HasLog :
    (i : ℕ) (s : Sidecar) (lines : List String) (d : Disk)
    → HasLog s.file lines d
    → HasLog s.file (lines ++ (decimal i ∷ [])) (record_chunk i s d).1
record_chunk-HasLog i s lines d log =
    subst (HasLog s.file (lines ++ (decimal i ∷ []))) (sym step) (record {
      holds = file_lines-put_lines s.file (lines ++ (decimal i ∷ [])) d;
      writable = unfold put_lines in log.writable;
      room = unfold put_lines in log.room;
      readable = unfold put_lines in log.readable;
    })
  where
    step : (record_chunk i s d).1 ≡ put_lines s.file (lines ++ (decimal i ∷ [])) d
    step = unfold record_chunk in unfold append_to in rw (log.room, log.holds) refl

record_all-HasLog :
    (is : List ℕ) (s : Sidecar) (lines : List String) (d : Disk)
    → HasLog s.file lines d
    → HasLog s.file (lines ++ map decimal is) (record_all is s d)
unfolding record_all
record_all-HasLog [] s lines d log = rw append-nil log
record_all-HasLog (i ∷ is) s lines d log =
    subst (λ ls. HasLog s.file ls (record_all is s (record_chunk i s d).1))
      (append_assoc lines (decimal i ∷ []) (map decimal is))
      (record_all-HasLog is s (lines ++ (decimal i ∷ [])) (record_chunk i s d).1
        (record_chunk-HasLog i s lines d log))

-- a claimed index in range is there, beside those claimed before
contains-claim :
    (total n k : ℕ) (claimed : List ℕ)
    → n < total
    → contains ℕ_discrete (claim total (some (pos n)) claimed) k
      ≡ (if contains ℕ_discrete claimed k then true else test (ℕ_discrete k n))
unfolding claim
contains-claim total n k claimed lt = elim (Bool-cases (contains ℕ_discrete claimed n)) [
  | inl there ↦ old there
  | inr fresh ↦
      ap (λ xs. contains ℕ_discrete xs k) (added fresh)
      ∙ contains-append ℕ_discrete claimed (n ∷ []) k
      ∙ (unfold contains in ground arith)
]
  where
    added :
        contains ℕ_discrete claimed n ≡ false
        → claim total (some (pos n)) claimed ≡ claimed ++ (n ∷ [])
    added fresh = ground (arith, fresh)

    old :
        contains ℕ_discrete claimed n ≡ true
        → contains ℕ_discrete (claim total (some (pos n)) claimed) k
          ≡ (if contains ℕ_discrete claimed k then true else test (ℕ_discrete k n))
    old there = elim (ℕ_discrete k n) [
      | yes e ↦ ground (arith, there, ap (contains ℕ_discrete claimed) e)
      | no ne ↦ ground (arith, there)
    ]

module _ (marshal : Header → String) (unmarshal : String → Option Header)
    (atoi : String → Option ℤ) where
  -- an index in range, whose `%d` is read back
  abbrev pub IsIndex : ℕ → ℕ → Type 0
  IsIndex total i = (i < total) × (atoi (decimal i) ≡ some (pos i))

  -- `Create` with the fields of a header
  abbrev pub started : String → Header → Disk → Option Sidecar × Disk
  started out h d =
      create marshal unmarshal atoi out h.storage_key h.merkle_root h.total_chunks h.total_size
        h.chunk_size h.created_at d

  contains-claims :
      (total : ℕ) (is claimed : List ℕ) (k : ℕ)
      → All (λ i. IsIndex total i) is
      → contains ℕ_discrete (claims marshal unmarshal atoi total (map decimal is) claimed) k
        ≡ (if contains ℕ_discrete claimed k then true else contains ℕ_discrete is k)
  unfolding claims
  contains-claims total [] claimed k h = unfold contains in ground arith
  contains-claims total (i ∷ is) claimed k h =
      ap
        (λ c.
          contains ℕ_discrete
            (claims marshal unmarshal atoi total (map decimal is) (claim total c claimed)) k)
        h.0.1
      ∙ contains-claims total is (claim total (some (pos i)) claimed) k h.1
      ∙ ap (λ b. if b then true else contains ℕ_discrete is k)
          (contains-claim total i k claimed h.0.0)
      ∙ (unfold contains in ground arith)

  open_sidecar-HasLog :
      (out : String) (h : Header) (lines : List String) (d : Disk)
      → unmarshal (marshal h) ≡ some h
      → HasLog (sidecar_path out) (marshal h ∷ lines) d
      → open_sidecar marshal unmarshal atoi out d
        ≡ inr (
            some (
              record { header = h; output_path = out; file = sidecar_path out },
              claims marshal unmarshal atoi h.total_chunks lines [],
            ))
  unfolding open_sidecar parse_lines reopened
  open_sidecar-HasLog out h lines d parses log =
      rw (log.holds, log.readable, parses, log.writable) refl

  -- A log that is created on a disk that can write and read it, and in which chunks of the file are
  -- recorded, opens with the header of the download, which matches its manifest, and claims exactly
  -- the chunks recorded; provided that the header's text parses to the header, and the text of each
  -- index to the index.
  pub open_sidecar-record_all :
      (out : String) (h : Header) (is : List ℕ) (d : Disk)
      → d.refuses (sidecar_path out) ≡ false
      → d.full (sidecar_path out) ≡ false
      → d.unreadable (sidecar_path out) ≡ false
      → unmarshal (marshal h) ≡ some h
      → All (λ i. IsIndex h.total_chunks i) is
      → (s : Sidecar) × (claimed : List ℕ) × ((started out h d).0 ≡ some s)
        × (open_sidecar marshal unmarshal atoi out (record_all is s (started out h d).1)
            ≡ inr (some (s, claimed)))
        × (matches h.storage_key h.merkle_root h.total_chunks h.total_size s ≡ true)
        × ((k : ℕ) → contains ℕ_discrete claimed k ≡ contains ℕ_discrete is k)
  open_sidecar-record_all out h is d w f r parses idx = (
    s,
    claims marshal unmarshal atoi h.total_chunks (map decimal is) [],
    ap (λ p. p.0) made,
    ap (λ p. open_sidecar marshal unmarshal atoi out (record_all is s p.1)) made
        ∙ open_sidecar-HasLog out h (map decimal is) (record_all is s first) parses
            (record_all-HasLog is s (marshal h ∷ []) first log),
    (unfold matches in ground arith),
    λ k. contains-claims h.total_chunks is [] k idx ∙ (unfold contains in ground arith),
  )
    where
      s : Sidecar
      s = record { header = h; output_path = out; file = sidecar_path out }

      first : Disk
      first = put_lines (sidecar_path out) (marshal h ∷ []) d

      made : started out h d ≡ (some s, first)
      made = unfold create in rw (w, f) refl

      log : HasLog (sidecar_path out) (marshal h ∷ []) first
      log = record {
        holds = file_lines-put_lines (sidecar_path out) (marshal h ∷ []) d;
        writable = unfold put_lines in w;
        room = unfold put_lines in f;
        readable = unfold put_lines in r;
      }
