-- ===== src/Ipc/Replies.antt =====
-- The daemon's replies (ipc/wire.go): what is read of a JSON reply and of a download's header is
-- what was sent.
use dfs_go.Common.{ℕ, ◌%◌, ◌^◌, ◌<◌, ◌≡◌, refl, ap, ◌∙◌, true, false, arith, ◌⊎◌, inl, inr}
use dfs_go.Common.{List, [], ◌∷◌, ◌++◌, ◌==◌, length}
use dfs_go.Ipc.{Result, ok, err, remote, Conn, status_ok, status_error}
use dfs_go.Ipc.{write_word, marshal_failed, check_status}
use dfs_go.Ipc.{
  write_json_response, read_json_response, write_download_response, write_download_error,
}
use dfs_go.Ipc.{read_download_response_header}
use dfs_go.Ipc.Words.{put_be, get_be-put_be_8, ℤ, pos, IsInt64, from_int64}
use dfs_go.Ipc.Words.{to_int64-from_int64, from_int64-lt}
use dfs_go.Ipc.Feeds.{feed, sent, after_two, after_three, read_byte-feed, read_word-feed}
use dfs_go.Ipc.RoundTrip.{frame, write_status_open, read_frame, delivered, deliver}
use mathlib.Core.List.{append_assoc}

-- the status and the body of a JSON reply, and what its reader makes of them
unfoldable pub reply_status : List ℕ ⊎ List ℕ → ℕ
reply_status (inl bytes) = status_ok
reply_status (inr text) = status_error

unfoldable pub reply_body : List ℕ ⊎ List ℕ → List ℕ
reply_body (inl bytes) = bytes
reply_body (inr text) = marshal_failed ++ text

unfoldable pub reply : List ℕ ⊎ List ℕ → Result (List ℕ)
reply (inl bytes) = ok bytes
reply (inr text) = err (remote (marshal_failed ++ text))

write_json_response_open :
    (m : List ℕ ⊎ List ℕ) (c : Conn)
    → c.is_open ≡ true
    → write_json_response m c ≡ sent (c.outgoing ++ frame (reply_status m) (reply_body m)) c
unfolding write_json_response reply_status reply_body
write_json_response_open (inl bytes) c up =
    unfold frame in
    unfold write_word in after_three (status_ok ∷ []) (put_be 4 (length bytes % 2 ^ 32)) bytes c up
write_json_response_open (inr text) c up =
    write_status_open status_error (marshal_failed ++ text) c up

check_status-reply :
    (m : List ℕ ⊎ List ℕ) (c : Conn) → check_status (reply_status m) (reply_body m) c ≡ (reply m, c)
unfolding check_status reply_status reply_body reply
check_status-reply (inl bytes) c = refl
check_status-reply (inr text) c = refl

header :
    (status : ℕ) (i : ℤ) (tail : List ℕ) (c : Conn)
    → IsInt64 i
    → read_download_response_header (feed (status ∷ (put_be 8 (from_int64 i) ++ tail)) c)
      ≡ (ok (status == status_ok, i), feed tail c)
unfolding read_download_response_header
header status i tail c fits =
    rw
      (
        read_byte-feed status _ c,
        read_word-feed 8 (from_int64 i) tail c,
        get_be-put_be_8 (from_int64 i),
        small,
        to_int64-from_int64 i fits,
      )
      refl
  where
    small : from_int64 i % 2 ^ 64 ≡ from_int64 i
    small = omega (arith, from_int64-lt i fits)

module _ (rest : List ℕ) (w r : Conn) (up : w.is_open ≡ true) (fresh : w.outgoing ≡ []) where
  -- `ReadJSONResponse` returns the bytes that `WriteJSONResponse` was to send, and where they could
  -- not be marshalled, an error with "json marshal: " and the marshaller's text (both below 4 GiB).
  pub read_json_response-write_json_response :
      (m : List ℕ ⊎ List ℕ)
      → length (reply_body m) < 2 ^ 32
      → read_json_response (delivered (write_json_response m w) rest r) ≡ (reply m, feed rest r)
  unfolding read_json_response
  read_json_response-write_json_response m fits =
      ap read_json_response
        (deliver rest w r up fresh (write_json_response m w) _ (write_json_response_open m w up))
      ∙ read_frame (reply_status m) (reply_body m) rest r fits check_status
      ∙ check_status-reply m (feed rest r)

  -- The header of a download tells its length, any int64, and that it is OK; that of a failed
  -- download tells the length of the message, which is left to be read.
  pub read_download_response_header-write :
      (i : ℤ) (msg : List ℕ)
      → IsInt64 i
      → length msg < 2 ^ 63
      → (read_download_response_header (delivered (write_download_response i w) rest r)
          ≡ (ok (true, i), feed rest r))
        × (read_download_response_header (delivered (write_download_error msg w) rest r)
            ≡ (ok (false, pos (length msg)), feed (msg ++ rest) r))
  read_download_response_header-write i msg int64 small = (
    ap read_download_response_header
          (deliver rest w r up fresh (write_download_response i w) _ good)
        ∙ header status_ok i rest r int64,
    ap read_download_response_header (deliver rest w r up fresh (write_download_error msg w) _ bad)
        ∙ rw append_assoc
            (unfold from_int64 in header status_error (pos (length msg)) (msg ++ rest) r small),
  )
    where
      good :
          write_download_response i w ≡ sent (w.outgoing ++ (status_ok ∷ put_be 8 (from_int64 i))) w
      good =
          unfold write_download_response in
          unfold write_word in after_two (status_ok ∷ []) (put_be 8 (from_int64 i)) w up

      bad :
          write_download_error msg w
          ≡ sent
              (w.outgoing ++ (status_error ∷ (put_be 8 (from_int64 (pos (length msg))) ++ msg)))
              w
      bad =
          unfold write_download_error in
          unfold write_word in
          unfold from_int64 in after_three (status_error ∷ []) (put_be 8 (length msg)) msg w up
