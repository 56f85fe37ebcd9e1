-- ===== src/Ipc/Progress.antt =====
-- Progress messages on the wire (ipc/wire.go): updates of a download and of a directory download,
-- and the readers that take an update or a final status. Counts of files and chunks are never
-- negative, so an `int` is a number here.
use dfs_go.Common.{ℕ, ◌%◌, ◌^◌, Bool, List, ◌∷◌, ◌++◌, ◌==◌, if◌then◌else◌, take, drop}
use dfs_go.Ipc.Words.{put_be, get_be}
use dfs_go.Ipc.{Io, Conn, ◌>>=◌, pure, after, write, read_full, read_byte, read_word}
use dfs_go.Ipc.{status_ok, status_progress}

-- What `ReadProgressOrStatus` has read: its results with `isProgress` set, or without.
pub data Update : Type 0 where
  progress : ℕ → ℕ → Update
  dir_progress : ℕ → ℕ → ℕ → ℕ → Update
  final : Bool → List ℕ → Update

unfoldable pub write_progress_update : ℕ → ℕ → Conn → Conn
write_progress_update completed total c =
    after (write (status_progress ∷ (put_be 4 (completed % 2 ^ 32) ++ put_be 4 (total % 2 ^ 32)))) c

unfoldable pub write_dir_progress_update : ℕ → ℕ → ℕ → ℕ → Conn → Conn
write_dir_progress_update file_idx file_total chunk_idx chunk_total c =
    after (write (status_progress ∷ (files ++ chunks))) c
  where
    files : List ℕ
    files = put_be 4 (file_idx % 2 ^ 32) ++ put_be 4 (file_total % 2 ^ 32)

    chunks : List ℕ
    chunks = put_be 4 (chunk_idx % 2 ^ 32) ++ put_be 4 (chunk_total % 2 ^ 32)

unfoldable pub read_progress : Io Update
read_progress = do buf ← read_full 8; pure (progress (get_be (take 4 buf)) (get_be (drop 4 buf)))

unfoldable pub read_dir_progress : Io Update
read_dir_progress = do
  buf ← read_full 16
  pure (
      dir_progress (get_be (take 4 buf)) (get_be (take 4 (drop 4 buf)))
        (get_be (take 4 (drop 8 buf))) (get_be (drop 12 buf)))

unfoldable pub read_final : ℕ → Io Update
read_final status = do
  mlen ← read_word 4
  msg ← read_full mlen
  pure (final (status == status_ok) msg)

unfoldable pub read_progress_or_status : Io Update
read_progress_or_status = do
  status ← read_byte
  if status == status_progress then read_progress else read_final status

unfoldable pub read_dir_progress_or_status : Io Update
read_dir_progress_or_status = do
  status ← read_byte
  if status == status_progress then read_dir_progress else read_final status
