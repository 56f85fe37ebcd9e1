-- ===== src/Ipc/Short.antt =====
-- Connections that end inside a message (ipc/wire.go).
use dfs_go.Common.{ℕ, zero, suc, ◌+◌, ◌%◌, ◌^◌, ◌<◌, ◌≡◌, refl, ap, ◌∙◌, arith}
use dfs_go.Common.{List, [], ◌∷◌, ◌++◌, ◌==◌, length, length-append, take}
use dfs_go.Ipc.{ok, err, read_failed, Conn, Io, ◌>>=◌, pure, read_byte, read_word, read_full}
use dfs_go.Ipc.{status_ok, read_status, read_json_response, check_status}
use dfs_go.Ipc.Words.{put_be, length-put_be}
use dfs_go.Ipc.Feeds.{feed, read_full_short, read_byte-feed, read_word-feed}
use dfs_go.Ipc.RoundTrip.{frame, frame_length}

length-take : (k : ℕ) (xs : List ℕ) → k < length xs → length (take k xs) ≡ k
length-take zero xs h = refl
length-take (suc k) [] h = absurd (omega arith)
length-take (suc k) (x ∷ xs) h = ap suc (length-take k xs (omega arith))

read_byte_short : (c : Conn) → read_byte (feed [] c) ≡ (err read_failed, feed [] c)
unfolding read_byte
read_byte_short c = rw (read_full_short 1 [] c (omega arith)) refl

read_word_short :
    (k : ℕ) (bs : List ℕ) (c : Conn)
    → length bs < k
    → read_word k (feed bs c) ≡ (err read_failed, feed [] c)
unfolding read_word
read_word_short k bs c h = rw (read_full_short k bs c h) refl

module _ (msg : List ℕ) (c : Conn) (fits : length msg < 2 ^ 32) where
  -- the length and the body of a message, cut inside the length
  cut_length :
      {A : Type 0} (done : List ℕ → Io A) (k : ℕ)
      → k < 4
      → (read_word 4 >>= λ n. read_full n >>= done)
          (feed (take k (put_be 4 (length msg % 2 ^ 32) ++ msg)) c)
        ≡ (err read_failed, feed [] c)
  cut_length done k h =
      rw (read_word_short 4 (take k (put_be 4 (length msg % 2 ^ 32) ++ msg)) c few) refl
    where
      few : length (take k (put_be 4 (length msg % 2 ^ 32) ++ msg)) < 4
      few = omega (
        arith,
        length-take k (put_be 4 (length msg % 2 ^ 32) ++ msg) (
            omega (
              arith,
              length-append (put_be 4 (length msg % 2 ^ 32)) msg,
              length-put_be 4 (length msg % 2 ^ 32),
            )),
      )

  -- cut anywhere
  cut_body :
      {A : Type 0} (done : List ℕ → Io A) (k : ℕ)
      → k < 4 + length msg
      → (read_word 4 >>= λ n. read_full n >>= done)
          (feed (take k (put_be 4 (length msg % 2 ^ 32) ++ msg)) c)
        ≡ (err read_failed, feed [] c)
  unfolding put_be
  cut_body done zero h = cut_length done 0 (omega arith)
  cut_body done (suc zero) h = cut_length done 1 (omega arith)
  cut_body done (suc (suc zero)) h = cut_length done 2 (omega arith)
  cut_body done (suc (suc (suc zero))) h = cut_length done 3 (omega arith)
  cut_body done (suc (suc (suc (suc k)))) h =
      rw
        (
          whole,
          read_full_short (length msg) (take k msg) c
              (omega (arith, length-take k msg (omega arith))),
        )
        refl
    where
      whole :
          read_word 4 (feed (put_be 4 (length msg % 2 ^ 32) ++ take k msg) c)
          ≡ (ok (length msg), feed (take k msg) c)
      whole =
          read_word-feed 4 (length msg % 2 ^ 32) (take k msg) c
          ∙ ap (λ n. (ok n, feed (take k msg) c)) (frame_length msg fits)

  cut_frame :
      {A : Type 0} (done : ℕ → List ℕ → Io A) (status k : ℕ)
      → k < 5 + length msg
      → (read_byte >>= λ s. read_word 4 >>= λ n. read_full n >>= done s)
          (feed (take k (frame status msg)) c)
        ≡ (err read_failed, feed [] c)
  unfolding frame
  cut_frame done status zero h = rw (read_byte_short c) refl
  cut_frame done status (suc k) h =
      rw (read_byte-feed status _ c) (cut_body (done status) k (omega arith))

  -- When the connection ends before the last byte of a status message or of a JSON reply (below
  -- 4 GiB), wherever it ends, its reader fails, and nothing of what came is returned.
  pub cut_fails :
      (status k : ℕ)
      → k < length (frame status msg)
      → (read_status (feed (take k (frame status msg)) c) ≡ (err read_failed, feed [] c))
        × (read_json_response (feed (take k (frame status msg)) c) ≡ (err read_failed, feed [] c))
  unfolding read_status read_json_response
  cut_fails status k h = (
    cut_frame (λ s m. pure (s == status_ok, m)) status k shorter,
    cut_frame check_status status k shorter,
  )
    where
      shorter : k < 5 + length msg
      shorter = unfold frame in unfold put_be in omega arith
