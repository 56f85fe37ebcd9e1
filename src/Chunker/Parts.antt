-- ===== src/Chunker/Parts.antt =====
-- What the reading loop of Storage/chunker/chunker.go sends.
use dfs_go.Common.{ℕ, zero, suc, ◌+◌, ◌-◌, ◌≤◌, ◌<◌, ◌≡◌, refl, ap, ◌∙◌, arith, true}
use dfs_go.Common.{Option, some, List, [], ◌∷◌, ◌++◌, leb, ◌==◌, length, take, drop}
use dfs_go.Common.{All, Bool-cases, inl, inr}
use mathlib.Core.List.{append-nil}
use mathlib.Core.Path.{subst}
use dfs_go.Chunker.{Chunk, Error, Ending, end_error, prepend, chunk_of, read_loop}

-- chunks at the indexes from `i` on, without a gap
abbrev pub IsRun : ℕ → List Chunk → Type 0
IsRun i [] = Unit
IsRun i (c ∷ cs) = (c.index ≡ i) × IsRun (suc i) cs

-- the bytes of chunks, one after the other
abbrev pub joined : List Chunk → List ℕ
joined [] = []
joined (c ∷ cs) = c.bytes ++ joined cs

module _ (sha256 : List ℕ → List ℕ) (size : ℕ) where
  -- a chunk with the hash and the size of its bytes, not empty and at most as long as the buffer
  abbrev pub IsPart : Chunk → Type 0
  IsPart c = (c.hash ≡ sha256 c.bytes) × (c.size ≡ length c.bytes) × (0 < c.size) × (c.size ≤ size)

  -- The loop has sent chunks that join to the bytes.
  abbrev pub Sends : ℕ → List ℕ → Ending → Option (List Chunk × Option Error) → Type 0
  Sends index bytes ending out =
      (cs : List Chunk) × (out ≡ some (cs, end_error ending (index + length cs)))
      × IsRun index cs
      × (joined cs ≡ bytes)
      × All IsPart cs

  take-drop : (n : ℕ) (xs : List ℕ) → take n xs ++ drop n xs ≡ xs
  take-drop zero xs = refl
  take-drop (suc n) [] = refl
  take-drop (suc n) (x ∷ xs) = ap (◌∷◌ x) (take-drop n xs)

  length-take : (n : ℕ) (xs : List ℕ) → n ≤ length xs → length (take n xs) ≡ n
  length-take zero xs h = refl
  length-take (suc n) [] h = absurd (omega arith)
  length-take (suc n) (x ∷ xs) h = ap suc (length-take n xs (omega arith))

  length-drop : (n : ℕ) (xs : List ℕ) → length (drop n xs) ≡ length xs - n
  length-drop zero xs = omega arith
  length-drop (suc n) [] = omega arith
  length-drop (suc n) (x ∷ xs) = length-drop n xs ∙ omega arith

  -- the round that fills the buffer
  Sends-full :
      (index : ℕ) (bytes : List ℕ) (ending : Ending) (rest : Option (List Chunk × Option Error))
      → 0 < size
      → size ≤ length bytes
      → Sends (index + 1) (drop size bytes) ending rest
      → Sends index bytes ending (prepend (chunk_of sha256 index (take size bytes)) rest)
  unfolding chunk_of
  Sends-full index bytes ending rest pos le (cs, e, run, join, parts) = (
    chunk_of sha256 index (take size bytes) ∷ cs,
    ap (prepend (chunk_of sha256 index (take size bytes))) e
        ∙ ap (λ n. some (chunk_of sha256 index (take size bytes) ∷ cs, end_error ending n))
            (count index (length cs)),
    (refl, subst (λ i. IsRun i cs) (next index) run),
    ap (λ q. take size bytes ++ q) join ∙ take-drop size bytes,
    (
      (
        refl,
        refl,
        omega (arith, length-take size bytes le),
        omega (arith, length-take size bytes le),
      ),
      parts,
    ),
  )
    where
      count : (a b : ℕ) → a + 1 + b ≡ a + suc b
      count a b = omega arith

      next : (a : ℕ) → a + 1 ≡ suc a
      next a = omega arith

  -- the round that ends inside the buffer, or with nothing
  Sends-last :
      (index : ℕ) (bytes : List ℕ) (ending : Ending)
      → length bytes < size
      → 0 < length bytes
      → Sends index bytes ending
          (some (chunk_of sha256 index bytes ∷ [], end_error ending (index + 1)))
  unfolding chunk_of
  Sends-last index bytes ending lt pos = (
    chunk_of sha256 index bytes ∷ [],
    refl,
    (refl, tt),
    append-nil bytes,
    ((refl, refl, pos, omega arith), tt),
  )

  Sends-none :
      (index : ℕ) (bytes : List ℕ) (ending : Ending)
      → length bytes ≡ 0
      → Sends index bytes ending (some ([], end_error ending index))
  Sends-none index [] ending e =
      ([], ap (λ n. some ([], end_error ending n)) (omega arith), tt, refl, tt)
  Sends-none index (b ∷ bs) ending e = absurd (omega arith)

  shorter :
      (bytes : List ℕ) (fuel : ℕ)
      → 0 < size
      → leb size (length bytes) ≡ true
      → length bytes < suc fuel
      → length (drop size bytes) < fuel
  shorter bytes fuel pos full lt = ground (arith, length-drop size bytes)

  -- With more rounds than bytes the loop ends. It has sent the bytes in parts, indexed from `index`
  -- on, and an error exactly if the reader was broken.
  pub read_loop-Sends :
      (fuel index : ℕ) (bytes : List ℕ) (ending : Ending)
      → 0 < size
      → length bytes < fuel
      → Sends index bytes ending (read_loop sha256 fuel size index bytes ending)
  unfolding read_loop
  read_loop-Sends zero index bytes ending pos lt = absurd (omega arith)
  read_loop-Sends (suc fuel) index bytes ending pos lt =
      elim (Bool-cases (leb size (length bytes))) [
        | inl full ↦ rw full (
            Sends-full index bytes ending _ pos (ground (arith, full)) (
              read_loop-Sends fuel (index + 1) (drop size bytes) ending pos
                (shorter bytes fuel pos full lt)))
        | inr short ↦ elim (Bool-cases (length bytes == 0)) [
          | inl e ↦ rw (short, e) (Sends-none index bytes ending (ground (arith, e)))
          | inr ne ↦
              rw (short, ne)
                (Sends-last index bytes ending (ground (arith, short)) (ground (arith, ne)))
        ]
      ]
