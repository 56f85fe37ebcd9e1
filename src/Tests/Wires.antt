-- ===== src/Tests/Wires.antt =====
-- Messages on a connection between the daemon and a client.
use dfs_go.Common.{ℕ, ◌≡◌, refl, List, [], ◌∷◌, true, arith, take, ◌==◌}
use dfs_go.Ipc.{
  Conn, ok, err, read_failed, status_ok, status_error, write_status, read_json_response,
  read_status,
}
use dfs_go.Ipc.Progress.{write_progress_update, read_progress_or_status, progress, final}
use dfs_go.Ipc.Words.{put_be}
use dfs_go.Ipc.Feeds.{feed}
use dfs_go.Ipc.RoundTrip.{frame, delivered}
use dfs_go.Ipc.Updates.{read_progress_or_status-write, word32}
use dfs_go.Ipc.Short.{cut_fails}

abbrev idle : Conn
idle = record { incoming = []; outgoing = []; is_open = true }

abbrev text : List ℕ
text = 98 ∷ 97 ∷ 100 ∷ []

read_progress_or_status-write_example :
    (read_progress_or_status (delivered (write_progress_update 3 4294967300 idle) (7 ∷ []) idle)
      ≡ (ok (progress (word32 3) (word32 4294967300)), feed (7 ∷ []) idle))
    × (read_progress_or_status (delivered (write_status status_error text idle) (7 ∷ []) idle)
        ≡ (ok (final (status_error == status_ok) text), feed (7 ∷ []) idle))
read_progress_or_status-write_example =
    read_progress_or_status-write (7 ∷ []) idle idle refl refl 3 4294967300 status_error text
      (omega arith) (omega arith)

cut_fails_example :
    (read_status (feed (take 6 (frame status_ok text)) idle) ≡ (err read_failed, feed [] idle))
    × (read_json_response (feed (take 6 (frame status_ok text)) idle)
        ≡ (err read_failed, feed [] idle))
cut_fails_example =
    cut_fails text idle (omega arith) status_ok 6 (unfold frame in unfold put_be in omega arith)

-- the second count has lost the multiple of 2^32
wraps : word32 4294967300 ≡ 4
wraps = refl
