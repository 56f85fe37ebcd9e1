-- ===== src/Quorum/Count.antt =====
-- When the loops of `Write` and `Read` end, and with what.
use dfs_go.Common.{
  ℕ, zero, suc, ◌+◌, ◌≤◌, ◌<◌, ◌≡◌, refl, sym, ap, ◌∙◌, String, List, [], ◌∷◌, ◌++◌, true, false,
  none, some, leb, if◌then◌else◌, length, select, take, arith, max, ◌⊎◌, Bool-cases, inl, inr,
  length-append, leb→le, leb→lt,
}
use mathlib.Core.List.{append-nil, append_assoc}
use dfs_go.Quorum.{
  Config, WriteAck, ReadResponse, write_timeout, write_loop, write, resolve_read, at_timeout,
  read_loop, read,
}

-- the acks of success
abbrev pub successes : List WriteAck → List WriteAck
successes received = select (λ a. a.success) received

-- the responses with the key found
abbrev pub finds : List ReadResponse → List ReadResponse
finds received = select (λ r. r.found) received

write_loop-counts :
    (w : ℕ) (key : String) (acks : ℕ) (received : List WriteAck)
    → (acks < w) ⊎ (acks ≡ 0)
    → write_loop w key acks received ≡ (
        if leb (max 1 w) (acks + length (successes received))
        then none
        else some (write_timeout (acks + length (successes received)) w key))
unfolding write_loop select
write_loop-counts w key acks [] h = ground arith
write_loop-counts w key acks (a ∷ received) h = elim (Bool-cases a.success) [
  | inl e ↦ elim (Bool-cases (leb w (acks + 1))) [
    | inl f ↦ ground (arith, e, f)
    | inr f ↦
        rw (e, f)
          (write_loop-counts w key (acks + 1) received (inl (leb→lt _ _ f))
            ∙ ap (λ k. if leb (max 1 w) k then none else some (write_timeout k w key))
                (omega arith))
  ]
  | inr e ↦ rw e (write_loop-counts w key acks received h)
]

-- A write returns nil exactly if the acks of success that it took from its channel before the
-- timeout number at least W, and at least one; else its error reports their number.
pub write_counts :
    (cfg : Config) (key : String) (received : List WriteAck)
    → write cfg key received ≡ (
        if leb (max 1 cfg.w) (length (successes received))
        then none
        else some (write_timeout (length (successes received)) cfg.w key))
unfolding write
write_counts cfg key received =
    write_loop-counts cfg.w key 0 received (inr refl)
    ∙ ap (λ k. if leb (max 1 cfg.w) k then none else some (write_timeout k cfg.w key)) (omega arith)

take_all : (n : ℕ) (xs : List ReadResponse) → length xs ≤ n → take n xs ≡ xs
take_all zero [] h = refl
take_all zero (x ∷ xs) h = absurd (omega arith)
take_all (suc n) [] h = refl
take_all (suc n) (x ∷ xs) h = ap (◌∷◌ x) (take_all n xs (omega arith))

take_prefix : (n : ℕ) (xs ys : List ReadResponse) → length xs ≡ n → take n (xs ++ ys) ≡ xs
take_prefix zero [] ys h = refl
take_prefix zero (x ∷ xs) ys h = absurd (omega arith)
take_prefix (suc n) [] ys h = absurd (omega arith)
take_prefix (suc n) (x ∷ xs) ys h = ap (◌∷◌ x) (take_prefix n xs ys (omega arith))

timeout-snoc :
    (responses : List ReadResponse) (resp : ReadResponse)
    → at_timeout (responses ++ resp ∷ []) ≡ resolve_read (responses ++ resp ∷ [])
unfolding at_timeout
timeout-snoc [] resp = refl
timeout-snoc (x ∷ xs) resp = refl

loop_found :
    (r : ℕ) (responses : List ReadResponse) (resp : ReadResponse) (received : List ReadResponse)
    → resp.found ≡ true
    → read_loop r responses (resp ∷ received) ≡ (
        if leb r (length (responses ++ resp ∷ []))
        then resolve_read (responses ++ resp ∷ [])
        else read_loop r (responses ++ resp ∷ []) received)
unfolding read_loop
loop_found r responses resp received e = simp e refl

loop_missed :
    (r : ℕ) (responses : List ReadResponse) (resp : ReadResponse) (received : List ReadResponse)
    → resp.found ≡ false
    → length responses < r
    → read_loop r responses (resp ∷ received) ≡ read_loop r responses received
unfolding read_loop
loop_missed r responses resp received e h = simp (e, lt→leb) refl
  where
    lt→leb : leb r (length responses) ≡ false
    lt→leb = ground arith

finds_found :
    (resp : ReadResponse) (received : List ReadResponse)
    → resp.found ≡ true
    → finds (resp ∷ received) ≡ resp ∷ finds received
unfolding select
finds_found resp received e = simp e refl

finds_missed :
    (resp : ReadResponse) (received : List ReadResponse)
    → resp.found ≡ false
    → finds (resp ∷ received) ≡ finds received
unfolding select
finds_missed resp received e = simp e refl

read_loop-uses :
    (r : ℕ) (responses received : List ReadResponse)
    → length responses < r
    → read_loop r responses received ≡ at_timeout (take r (responses ++ finds received))
read_loop-uses r responses [] h =
    unfold read_loop in
    unfold select in
    ap at_timeout (sym (ap (take r) (append-nil responses) ∙ take_all r responses (omega arith)))
read_loop-uses r responses (resp ∷ received) h = elim (Bool-cases resp.found) [
  | inr e ↦
      loop_missed r responses resp received e h
      ∙ read_loop-uses r responses received h
      ∙ ap (λ l. at_timeout (take r (responses ++ l))) (sym (finds_missed resp received e))
  | inl e ↦
      let more = responses ++ resp ∷ [] in
      let len = length-append responses (resp ∷ []) in
      loop_found r responses resp received e
      ∙ elim (Bool-cases (leb r (length more))) [
        | inl f ↦ rw f (
            sym (timeout-snoc responses resp)
            ∙ ap at_timeout
                (sym (take_prefix r more (finds received) (omega (arith, leb→le _ _ f)))))
        | inr f ↦ rw f (read_loop-uses r more received (leb→lt _ _ f))
      ]
      ∙ ap (λ l. at_timeout (take r l)) (append_assoc responses (resp ∷ []) (finds received))
      ∙ ap (λ l. at_timeout (take r (responses ++ l))) (sym (finds_found resp received e))
]

-- A read with R above 0 resolves the first R responses that found the key, or all of them if fewer
-- came before the timeout, and reports an error exactly if none came.
pub read_uses :
    (cfg : Config) (received : List ReadResponse)
    → 0 < cfg.r
    → read cfg received ≡ at_timeout (take cfg.r (finds received))
unfolding read
read_uses cfg received h = read_loop-uses cfg.r [] received h
