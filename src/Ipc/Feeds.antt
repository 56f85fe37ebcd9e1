-- ===== src/Ipc/Feeds.antt =====
-- What the primitive reads and writes of ipc/wire.go do to a connection.
use dfs_go.Common.{ℕ, ◌<◌, ◌≡◌, refl, ap, ◌∙◌, arith, true}
use dfs_go.Common.{List, [], ◌∷◌, ◌++◌, length, take, drop, length-append}
use dfs_go.Ipc.{Conn, ok, err, read_failed, write, ◌>>=◌, read_full, read_word, read_byte, after}
use dfs_go.Ipc.Words.{put_be, get_be, length-put_be}
use mathlib.Core.List.{append_assoc}

-- a connection on which these bytes wait to be read
abbrev pub feed : List ℕ → Conn → Conn
feed bytes c = record c { incoming = bytes }

-- an open connection to which these bytes were written
abbrev pub sent : List ℕ → Conn → Conn
sent bytes c = record c { outgoing = bytes }

take-append : (xs ys : List ℕ) → take (length xs) (xs ++ ys) ≡ xs
take-append [] ys = refl
take-append (x ∷ xs) ys = ap (◌∷◌ x) (take-append xs ys)

drop-append : (xs ys : List ℕ) → drop (length xs) (xs ++ ys) ≡ ys
drop-append [] ys = refl
drop-append (x ∷ xs) ys = drop-append xs ys

-- A read takes exactly the bytes asked for, when they are there.
pub read_full-feed :
    (bs rest : List ℕ) (c : Conn)
    → read_full (length bs) (feed (bs ++ rest) c) ≡ (ok bs, feed rest c)
unfolding read_full
read_full-feed bs rest c =
    ground (arith, length-append bs rest, take-append bs rest, drop-append bs rest)

-- A read that asks for more than there is fails.
pub read_full_short :
    (n : ℕ) (bs : List ℕ) (c : Conn)
    → length bs < n
    → read_full n (feed bs c) ≡ (err read_failed, feed [] c)
unfolding read_full
read_full_short n bs c h = ground arith

pub read_byte-feed :
    (b : ℕ) (rest : List ℕ) (c : Conn) → read_byte (feed (b ∷ rest) c) ≡ (ok b, feed rest c)
unfolding read_byte
read_byte-feed b rest c = rw (read_full-feed (b ∷ []) rest c) refl

pub read_word-feed :
    (k v : ℕ) (rest : List ℕ) (c : Conn)
    → read_word k (feed (put_be k v ++ rest) c) ≡ (ok (get_be (put_be k v)), feed rest c)
unfolding read_word
read_word-feed k v rest c = rw (rw (length-put_be k v) at (read_full-feed (put_be k v) rest c)) refl

pub write_open :
    (bs : List ℕ) (c : Conn) → c.is_open ≡ true → write bs c ≡ (ok tt, sent (c.outgoing ++ bs) c)
unfolding write
write_open bs c h = rw h refl

-- Two and three writes in a row send their bytes in that order.
pub write_two :
    (xs bs : List ℕ) (c : Conn)
    → c.is_open ≡ true
    → (write xs >>= λ _. write bs) c ≡ (ok tt, sent (c.outgoing ++ (xs ++ bs)) c)
write_two xs bs c h =
    rw (write_open xs c h, write_open bs (sent (c.outgoing ++ xs) c) h, append_assoc) refl

pub after_one :
    (bs : List ℕ) (c : Conn) → c.is_open ≡ true → after (write bs) c ≡ sent (c.outgoing ++ bs) c
after_one bs c h = ap (λ p. p.1) (write_open bs c h)

pub after_two :
    (xs ys : List ℕ) (c : Conn)
    → c.is_open ≡ true
    → after (write ys) (after (write xs) c) ≡ sent (c.outgoing ++ (xs ++ ys)) c
after_two xs ys c h =
    ap (after (write ys)) (after_one xs c h)
    ∙ after_one ys (sent (c.outgoing ++ xs) c) h
    ∙ rw append_assoc refl

pub after_three :
    (xs ys zs : List ℕ) (c : Conn)
    → c.is_open ≡ true
    → after (write zs) (after (write ys) (after (write xs) c))
      ≡ sent (c.outgoing ++ (xs ++ (ys ++ zs))) c
after_three xs ys zs c h =
    ap (after (write zs)) (after_two xs ys c h)
    ∙ after_one zs (sent (c.outgoing ++ (xs ++ ys)) c) h
    ∙ rw (append_assoc, append_assoc) refl
