-- ===== src/Ipc/Updates.antt =====
-- A download's client reads the updates and the final status that were sent (ipc/wire.go).
use dfs_go.Common.{ℕ, ◌%◌, ◌^◌, ◌<◌, ◌≡◌, refl, ap, ◌∙◌, true, arith, ◌≢◌}
use dfs_go.Common.{List, [], ◌∷◌, ◌++◌, ◌==◌, if◌then◌else◌, length, take, drop}
use dfs_go.Ipc.{ok, Conn, Io, ◌>>=◌, pure, status_ok, status_progress, read_byte}
use dfs_go.Ipc.{read_full, write_status}
use dfs_go.Ipc.Progress.{Update, progress, dir_progress, final, write_progress_update}
use dfs_go.Ipc.Progress.{write_dir_progress_update, read_progress, read_dir_progress, read_final}
use dfs_go.Ipc.Progress.{read_progress_or_status, read_dir_progress_or_status}
use dfs_go.Ipc.Words.{put_be, get_be, get_be-put_be_4}
use dfs_go.Ipc.Feeds.{feed, sent, after_one, read_byte-feed, read_full-feed}
use dfs_go.Ipc.RoundTrip.{frame, write_status_open, read_body, delivered, deliver}
use mathlib.Core.List.{append_assoc}

-- a count as four bytes carry it
abbrev pub word32 : ℕ → ℕ
word32 n = n % 2 ^ 32

count : (n : ℕ) → get_be (put_be 4 (n % 2 ^ 32)) ≡ word32 n
count n = get_be-put_be_4 (n % 2 ^ 32) ∙ omega arith

-- two counts, in the eight bytes that the writer sends
abbrev pair : ℕ → ℕ → List ℕ
pair a b = put_be 4 (a % 2 ^ 32) ++ put_be 4 (b % 2 ^ 32)

-- A buffer with a length of its own is read in one piece.
read_full-of :
    (n : ℕ) (bs rest : List ℕ) (c : Conn)
    → length bs ≡ n
    → read_full n (feed (bs ++ rest) c) ≡ (ok bs, feed rest c)
read_full-of n bs rest c e = rw e at (read_full-feed bs rest c)

read_progress-pair :
    (a b : ℕ) (rest : List ℕ) (c : Conn)
    → read_progress (feed (pair a b ++ rest) c) ≡ (ok (progress (word32 a) (word32 b)), feed rest c)
unfolding read_progress
read_progress-pair a b rest c =
    rw (read_full-of 8 (pair a b) rest c (unfold put_be in refl))
      (ap (λ u. (ok u, feed rest c)) parts)
  where
    parts :
        progress (get_be (take 4 (pair a b))) (get_be (drop 4 (pair a b)))
        ≡ progress (word32 a) (word32 b)
    parts = unfold put_be in rw (count a, count b) refl

read_dir_progress-pairs :
    (a b d e : ℕ) (rest : List ℕ) (c : Conn)
    → read_dir_progress (feed ((pair a b ++ pair d e) ++ rest) c)
      ≡ (ok (dir_progress (word32 a) (word32 b) (word32 d) (word32 e)), feed rest c)
unfolding read_dir_progress
read_dir_progress-pairs a b d e rest c =
    rw (read_full-of 16 (pair a b ++ pair d e) rest c (unfold put_be in refl))
      (ap (λ u. (ok u, feed rest c)) parts)
  where
    buf : List ℕ
    buf = pair a b ++ pair d e

    parts :
        dir_progress
          (get_be (take 4 buf))
          (get_be (take 4 (drop 4 buf)))
          (get_be (take 4 (drop 8 buf)))
          (get_be (drop 12 buf))
        ≡ dir_progress (word32 a) (word32 b) (word32 d) (word32 e)
    parts = unfold put_be in rw (count a, count b, count d, count e) refl

module _ (rest : List ℕ) (w r : Conn) (up : w.is_open ≡ true) (fresh : w.outgoing ≡ []) where
  -- The client of a download reads back the counts of an update, modulo 2^32.
  read_progress_or_status-write_progress_update :
      (a b : ℕ)
      → read_progress_or_status (delivered (write_progress_update a b w) rest r)
        ≡ (ok (progress (word32 a) (word32 b)), feed rest r)
  unfolding read_progress_or_status
  read_progress_or_status-write_progress_update a b =
      ap read_progress_or_status (deliver rest w r up fresh (write_progress_update a b w) _ wrote)
      ∙ rw (read_byte-feed status_progress _ r) (read_progress-pair a b rest r)
    where
      wrote : write_progress_update a b w ≡ sent (w.outgoing ++ (status_progress ∷ pair a b)) w
      wrote = unfold write_progress_update in after_one (status_progress ∷ pair a b) w up

  -- The client of a directory download reads back the counts of an update, modulo 2^32.
  read_dir_progress_or_status-write_dir_progress_update :
      (a b d e : ℕ)
      → read_dir_progress_or_status (delivered (write_dir_progress_update a b d e w) rest r)
        ≡ (ok (dir_progress (word32 a) (word32 b) (word32 d) (word32 e)), feed rest r)
  unfolding read_dir_progress_or_status
  read_dir_progress_or_status-write_dir_progress_update a b d e =
      ap read_dir_progress_or_status
        (deliver rest w r up fresh (write_dir_progress_update a b d e w) _ wrote)
      ∙ rw (read_byte-feed status_progress _ r) (read_dir_progress-pairs a b d e rest r)
    where
      wrote :
          write_dir_progress_update a b d e w
          ≡ sent (w.outgoing ++ (status_progress ∷ (pair a b ++ pair d e))) w
      wrote =
          unfold write_dir_progress_update in
          after_one (status_progress ∷ (pair a b ++ pair d e)) w up

  read_final-frame :
      (status : ℕ) (msg : List ℕ)
      → length msg < 2 ^ 32
      → read_final status (feed (put_be 4 (length msg % 2 ^ 32) ++ (msg ++ rest)) r)
        ≡ (ok (final (status == status_ok) msg), feed rest r)
  unfolding read_final
  read_final-frame status msg fits =
      read_body status msg rest r fits (λ m. pure (final (status == status_ok) m))

  -- the rest of a client's read, once it has seen a status that is no update
  unframe :
      (updates : Io Update) (status : ℕ) (msg : List ℕ)
      → status ≢ status_progress
      → length msg < 2 ^ 32
      → (read_byte >>= λ s. if s == status_progress then updates else read_final s)
          (feed (frame status msg ++ rest) r)
        ≡ (ok (final (status == status_ok) msg), feed rest r)
  unfolding frame
  unframe updates status msg ne fits =
      rw (append_assoc, read_byte-feed status _ r)
        (ground (arith, read_final-frame status msg fits))

  -- The client of a download reads the counts of an update, modulo 2^32, and a final status, of
  -- another code than an update's, with its message (below 4 GiB), as the daemon has sent them.
  pub read_progress_or_status-write :
      (a b status : ℕ) (msg : List ℕ)
      → status ≢ status_progress
      → length msg < 2 ^ 32
      → (read_progress_or_status (delivered (write_progress_update a b w) rest r)
          ≡ (ok (progress (word32 a) (word32 b)), feed rest r))
        × (read_progress_or_status (delivered (write_status status msg w) rest r)
            ≡ (ok (final (status == status_ok) msg), feed rest r))
  read_progress_or_status-write a b status msg ne fits = (
    read_progress_or_status-write_progress_update a b,
    ap read_progress_or_status (
          deliver rest w r up fresh (write_status status msg w) _
            (write_status_open status msg w up))
        ∙ unfold read_progress_or_status in unframe read_progress status msg ne fits,
  )

  -- The client of a directory download reads the four counts of an update, modulo 2^32, and a
  -- final status, of another code than an update's, with its message (below 4 GiB).
  pub read_dir_progress_or_status-write :
      (a b d e status : ℕ) (msg : List ℕ)
      → status ≢ status_progress
      → length msg < 2 ^ 32
      → (read_dir_progress_or_status (delivered (write_dir_progress_update a b d e w) rest r)
          ≡ (ok (dir_progress (word32 a) (word32 b) (word32 d) (word32 e)), feed rest r))
        × (read_dir_progress_or_status (delivered (write_status status msg w) rest r)
            ≡ (ok (final (status == status_ok) msg), feed rest r))
  read_dir_progress_or_status-write a b d e status msg ne fits = (
    read_dir_progress_or_status-write_dir_progress_update a b d e,
    ap read_dir_progress_or_status (
          deliver rest w r up fresh (write_status status msg w) _
            (write_status_open status msg w up))
        ∙ unfold read_dir_progress_or_status in unframe read_dir_progress status msg ne fits,
  )
