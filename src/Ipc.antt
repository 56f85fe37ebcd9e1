-- ===== src/Ipc.antt =====
-- The wire format between the daemon and its clients (ipc/wire.go, ipc/opcodes.go): what each
-- writer sends and each reader takes. A byte is a number, a Go string its bytes. A connection is
-- what is still to be read from it, what was written to it, and whether it takes writes.
pub mod Words
pub mod Progress
pub mod Feeds
pub mod RoundTrip
pub mod Replies
pub mod Updates
pub mod Short
use dfs_go.Common.{ℕ, zero, suc, ◌-◌, ◌%◌, ◌^◌, Bool, true, false, List, [], ◌∷◌, ◌++◌}
use dfs_go.Common.{◌⊎◌, inl, inr, leb, ltb, ◌==◌, if◌then◌else◌, length, take, drop}
use dfs_go.Ipc.Words.{put_be, get_be, ℤ, to_int64, from_int64}

pub data Error : Type 0 where
  too_long write_failed read_failed : Error
  remote : List ℕ → Error

pub data Result {ℓ} (A : Type ℓ) : Type ℓ where
  ok : A → Result A
  err : Error → Result A

pub record Conn : Type 0 where
  pub incoming : List ℕ
  pub outgoing : List ℕ
  pub is_open : Bool

-- An action on a connection; `>>=` goes on as the code does after `if err != nil { return }`.
abbrev pub Io {ℓ} : Type ℓ → Type ℓ
Io A = Conn → Result A × Conn

abbrev pub next {ℓ κ} : {A : Type ℓ} {B : Type κ} → Result A × Conn → (A → Io B) → Result B × Conn
next (ok a, c) f = f a c
next (err e, c) f = (err e, c)

infixl 5 ◌>>=◌ ◌>>◌
abbrev pub ◌>>=◌ {ℓ κ} : {A : Type ℓ} {B : Type κ} → Io A → (A → Io B) → Io B
◌>>=◌ m f c = next (m c) f

abbrev pub ◌>>◌ {ℓ} : {A : Type ℓ} → Io (Unit {0}) → Io A → Io A
◌>>◌ m n = m >>= λ _. n

abbrev pub pure {ℓ} : {A : Type ℓ} → A → Io A
pure a c = (ok a, c)

-- the connection after an action whose error is ignored
abbrev pub after {ℓ} : {A : Type ℓ} → Io A → Conn → Conn
after m c = (m c).1

-- `conn.Write`
unfoldable pub write : List ℕ → Io (Unit {0})
write bytes c =
    if c.is_open
    then (ok tt, record c { outgoing = c.outgoing ++ bytes })
    else (err write_failed, c)

-- `io.ReadFull` into a buffer of `n` bytes
unfoldable pub read_full : ℕ → Io (List ℕ)
read_full n c =
    if leb n (length c.incoming)
    then (ok (take n c.incoming), record c { incoming = drop n c.incoming })
    else (err read_failed, record c { incoming = [] })

abbrev pub status_ok : ℕ
status_ok = 0

abbrev pub status_error : ℕ
status_error = 1

abbrev pub status_progress : ℕ
status_progress = 2

-- a length or a number of `k` bytes
unfoldable pub write_word : ℕ → ℕ → Io (Unit {0})
write_word k v = write (put_be k v)

unfoldable pub read_word : ℕ → Io ℕ
read_word k = do buf ← read_full k; pure (get_be buf)

-- `buf[0]`
abbrev pub first : List ℕ → ℕ
first [] = 0
first (b ∷ bs) = b

-- the one status byte
unfoldable pub read_byte : Io ℕ
read_byte = do buf ← read_full 1; pure (first buf)

unfoldable pub write_string16 : List ℕ → Io (Unit {0})
write_string16 s c = if ltb 65535 (length s) then (err too_long, c) else send c
  where
    send : Io (Unit {0})
    send = do write_word 2 (length s % 2 ^ 16); write s

-- also `WriteString16NoErr` and `WriteTransferID`
unfoldable pub write_transfer_id : List ℕ → Conn → Conn
write_transfer_id tid c = after (write_string16 tid) c

-- also `ReadTransferID`
unfoldable pub read_string16 : Io (List ℕ)
read_string16 = do slen ← read_word 2; read_full slen

-- The writers below go on after a failed write, as the code does.
unfoldable pub write_status : ℕ → List ℕ → Conn → Conn
write_status status msg c =
    let c1 = after (write (status ∷ [])) c in
    let c2 = after (write_word 4 (length msg % 2 ^ 32)) c1 in after (write msg) c2

unfoldable pub read_status : Io (Bool × List ℕ)
read_status = do
  status ← read_byte
  mlen ← read_word 4
  msg ← read_full mlen
  pure (status == status_ok, msg)

-- the bytes of "json marshal: "
abbrev pub marshal_failed : List ℕ
marshal_failed = 106 ∷ 115 ∷ 111 ∷ 110 ∷ 32 ∷ 109 ∷ 97 ∷ 114 ∷ 115 ∷ 104 ∷ 97 ∷ 108 ∷ 58 ∷ 32 ∷ []

-- `json.Marshal` has given the bytes, or an error with its text.
unfoldable pub write_json_response : List ℕ ⊎ List ℕ → Conn → Conn
write_json_response (inl bytes) c =
    let c1 = after (write (status_ok ∷ [])) c in
    let c2 = after (write_word 4 (length bytes % 2 ^ 32)) c1 in after (write bytes) c2
write_json_response (inr text) c = write_status status_error (marshal_failed ++ text) c

unfoldable pub check_status : ℕ → List ℕ → Io (List ℕ)
check_status status bytes c = if status == status_ok then (ok bytes, c) else (err (remote bytes), c)

unfoldable pub read_json_response : Io (List ℕ)
read_json_response = do
  status ← read_byte
  mlen ← read_word 4
  bytes ← read_full mlen
  check_status status bytes

unfoldable pub write_download_response : ℤ → Conn → Conn
write_download_response content_len c =
    let c1 = after (write (status_ok ∷ [])) c in after (write_word 8 (from_int64 content_len)) c1

unfoldable pub write_download_error : List ℕ → Conn → Conn
write_download_error msg c =
    let c1 = after (write (status_error ∷ [])) c in
    let c2 = after (write_word 8 (length msg)) c1 in after (write msg) c2

unfoldable pub read_download_response_header : Io (Bool × ℤ)
read_download_response_header = do
  status ← read_byte
  content_len ← read_word 8
  pure (status == status_ok, to_int64 content_len)
