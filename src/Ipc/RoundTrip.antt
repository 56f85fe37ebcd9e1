-- ===== src/Ipc/RoundTrip.antt =====
-- What a writer of ipc/wire.go sends, and that the reader takes back exactly that.
use dfs_go.Common.{ℕ, ◌%◌, ◌^◌, ◌≤◌, ◌<◌, ◌≡◌, refl, ap, ◌∙◌, arith, true}
use dfs_go.Common.{List, [], ◌∷◌, ◌++◌, ◌==◌, length}
use dfs_go.Ipc.{Io, ◌>>=◌, pure, Conn, ok, err, too_long, read_full, read_word, read_byte, after}
use dfs_go.Ipc.{write_word, write_string16, read_string16, write_status, read_status, status_ok}
use dfs_go.Ipc.Words.{put_be, get_be, get_be-put_be_2, get_be-put_be_4}
use dfs_go.Ipc.Feeds.{
  feed, sent, write_two, after_three, read_byte-feed, read_word-feed, read_full-feed,
}
use mathlib.Core.List.{append_assoc}

-- a status byte, a length of four bytes, and the bytes
unfoldable pub frame : ℕ → List ℕ → List ℕ
frame status msg = status ∷ (put_be 4 (length msg % 2 ^ 32) ++ msg)

pub frame_length :
    (msg : List ℕ) → length msg < 2 ^ 32 → get_be (put_be 4 (length msg % 2 ^ 32)) ≡ length msg
frame_length msg h = get_be-put_be_4 (length msg % 2 ^ 32) ∙ omega arith

string_length : (s : List ℕ) → length s ≤ 65535 → get_be (put_be 2 (length s % 2 ^ 16)) ≡ length s
string_length s h = get_be-put_be_2 (length s % 2 ^ 16) ∙ omega arith

pub write_string16_open :
    (s : List ℕ) (c : Conn)
    → c.is_open ≡ true
    → length s ≤ 65535
    → write_string16 s c ≡ (ok tt, sent (c.outgoing ++ (put_be 2 (length s % 2 ^ 16) ++ s)) c)
unfolding write_string16 write_word
write_string16_open s c h le = ground (arith, write_two (put_be 2 (length s % 2 ^ 16)) s c h)

write_string16_long :
    (s : List ℕ) (c : Conn) → 65535 < length s → write_string16 s c ≡ (err too_long, c)
unfolding write_string16
write_string16_long s c lt = ground arith

pub write_status_open :
    (status : ℕ) (msg : List ℕ) (c : Conn)
    → c.is_open ≡ true
    → write_status status msg c ≡ sent (c.outgoing ++ frame status msg) c
unfolding write_status write_word frame
write_status_open status msg c h =
    after_three (status ∷ []) (put_be 4 (length msg % 2 ^ 32)) msg c h

-- what was written to a fresh connection `w`, waiting with `rest` on the reader's connection `r`
abbrev pub delivered : Conn → List ℕ → Conn → Conn
delivered w rest r = feed (w.outgoing ++ rest) r

-- Reading a status byte, a length and as many bytes, where they wait on the connection.
module _ (status : ℕ) (msg rest : List ℕ) (c : Conn) (fits : length msg < 2 ^ 32) where
  word :
      read_word 4 (feed (put_be 4 (length msg % 2 ^ 32) ++ (msg ++ rest)) c)
      ≡ (ok (length msg), feed (msg ++ rest) c)
  word =
      read_word-feed 4 (length msg % 2 ^ 32) (msg ++ rest) c
      ∙ ap (λ n. (ok n, feed (msg ++ rest) c)) (frame_length msg fits)

  pub read_body :
      {A : Type 0} (done : List ℕ → Io A)
      → (read_word 4 >>= λ n. read_full n >>= done)
          (feed (put_be 4 (length msg % 2 ^ 32) ++ (msg ++ rest)) c)
        ≡ done msg (feed rest c)
  read_body done = rw (word, read_full-feed msg rest c) refl

  pub read_frame :
      {A : Type 0} (done : ℕ → List ℕ → Io A)
      → (read_byte >>= λ s. read_word 4 >>= λ n. read_full n >>= done s)
          (feed (frame status msg ++ rest) c)
        ≡ done status msg (feed rest c)
  unfolding frame
  read_frame done = rw (append_assoc, read_byte-feed status _ c) (read_body (done status))

module _ (rest : List ℕ) (w r : Conn) (up : w.is_open ≡ true) (fresh : w.outgoing ≡ []) where
  pub deliver :
      (w' : Conn) (bs : List ℕ)
      → w' ≡ sent (w.outgoing ++ bs) w
      → delivered w' rest r ≡ feed (bs ++ rest) r
  deliver w' bs e = rw (e, fresh) refl

  -- A string of at most 65535 bytes that `WriteString16` has written is what `ReadString16`
  -- returns, and what follows it on the connection is left unread.
  pub read_string16-write_string16 :
      (s : List ℕ)
      → length s ≤ 65535
      → read_string16 (delivered (after (write_string16 s) w) rest r) ≡ (ok s, feed rest r)
  unfolding read_string16
  read_string16-write_string16 s le =
      ap read_string16
        (deliver (after (write_string16 s) w) _ (ap (λ p. p.1) (write_string16_open s w up le)))
      ∙ rw (append_assoc, word2, read_full-feed s rest r) refl
    where
      word2 :
          read_word 2 (feed (put_be 2 (length s % 2 ^ 16) ++ (s ++ rest)) r)
          ≡ (ok (length s), feed (s ++ rest) r)
      word2 =
          read_word-feed 2 (length s % 2 ^ 16) (s ++ rest) r
          ∙ ap (λ n. (ok n, feed (s ++ rest) r)) (string_length s le)

  -- Whatever status and message (below 4 GiB) `WriteStatus` has written, `ReadStatus` returns
  -- whether the status is OK and that message.
  pub read_status-write_status :
      (status : ℕ) (msg : List ℕ)
      → length msg < 2 ^ 32
      → read_status (delivered (write_status status msg w) rest r)
        ≡ (ok (status == status_ok, msg), feed rest r)
  unfolding read_status
  read_status-write_status status msg fits =
      ap read_status (deliver (write_status status msg w) _ (write_status_open status msg w up))
      ∙ read_frame status msg rest r fits (λ s m. pure (s == status_ok, m))
