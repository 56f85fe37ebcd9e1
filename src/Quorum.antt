-- ===== src/Quorum.antt =====
-- Cluster/quorum/quorum.go: write and read quorums. Sending, the local store and the ring are
-- parameters. The goroutines of a call race to fill its channel: `received` is what the call took
-- out of it, in that order, before its timer fired. One call is in flight per key.
pub mod Count
pub mod Overlap
use mathlib.Core.List.{lookup}
use dfs_go.Common.{
  ℕ, zero, suc, ◌+◌, ◌*◌, ◌^◌, String, List, [], ◌∷◌, ◌++◌, Bool, true, false, Option, none, some,
  leb, ltb, ◌==◌, if◌then◌else◌, length, string_discrete, test, map,
}
use dfs_go.Common.Assoc.{insert, delete}
use dfs_go.VClock.{VectorClock}
use dfs_go.Conflict.{Version, resolve}

pub record Config : Type 0 where
  pub n : ℕ
  pub w : ℕ
  pub r : ℕ
  pub timeout : ℕ

-- the timeout in nanoseconds
unfoldable pub default_config : Config
default_config = record { n = 3; w = 2; r = 2; timeout = 5 * 10 ^ 9 }

pub record WriteAck : Type 0 where
  pub node_addr : String
  pub key : String
  pub success : Bool
  pub err_msg : String

pub record ReadResponse : Type 0 where
  pub node_addr : String
  pub key : String
  pub found : Bool
  pub clock : VectorClock
  pub timestamp : ℕ

-- the messages that a coordinator sends
pub data Message (Data : Type 0) : Type 0 where
  quorum_write : String → Data → VectorClock → Message Data
  quorum_read : String → Message Data

-- a buffered channel, the oldest entry first
pub record Chan (A : Type 0) : Type 0 where
  pub capacity : ℕ
  pub buffer : List A

-- `select { case ch <- a: default: }`
unfoldable pub try_send : {A : Type 0} → Chan A → A → Chan A
try_send ch a =
    if ltb (length ch.buffer) ch.capacity then record ch { buffer = ch.buffer ++ a ∷ [] } else ch

pub record Coordinator : Type 0 where
  pub cfg : Config
  pub self_addr : String
  pub write_acks : List (String × Chan WriteAck)
  pub read_resps : List (String × Chan ReadResponse)

unfoldable pub new : Config → String → Coordinator
new cfg self_addr = record { cfg = cfg; self_addr = self_addr; write_acks = []; read_resps = [] }

pub data WriteError : Type 0 where
  write_timeout : (acks w : ℕ) (key : String) → WriteError

-- A read returns a clock, or the error of a timeout without any response; the resolver panics on
-- no versions.
pub data ReadResult : Type 0 where
  found_clock : VectorClock → ReadResult
  no_responses : ReadResult
  panicked : ReadResult

-- the beginning and the end of `Write`
unfoldable pub begin_write : Coordinator → String → List String → Coordinator
begin_write c key targets = record c {
  write_acks =
      insert string_discrete key (record { capacity = length targets + 1; buffer = [] })
        c.write_acks;
}

unfoldable pub end_write : Coordinator → String → Coordinator
end_write c key = record c { write_acks = delete string_discrete key c.write_acks }

unfoldable pub handle_write_ack : Coordinator → WriteAck → Coordinator
handle_write_ack c ack = elim (lookup string_discrete ack.key c.write_acks) [
  | none ↦ c
  | some ch ↦ record c {
    write_acks = insert string_discrete ack.key (try_send ch ack) c.write_acks;
  }
]

-- the same for `Read`
unfoldable pub begin_read : Coordinator → String → List String → Coordinator
begin_read c key targets = record c {
  read_resps =
      insert string_discrete key (record { capacity = length targets + 1; buffer = [] })
        c.read_resps;
}

unfoldable pub end_read : Coordinator → String → Coordinator
end_read c key = record c { read_resps = delete string_discrete key c.read_resps }

unfoldable pub handle_read_response : Coordinator → ReadResponse → Coordinator
handle_read_response c resp = elim (lookup string_discrete resp.key c.read_resps) [
  | none ↦ c
  | some ch ↦ record c {
    read_resps = insert string_discrete resp.key (try_send ch resp) c.read_resps;
  }
]

-- `nil`, or the text of the error, as the ack of a target
unfoldable pub ack_of : String → String → Option String → WriteAck
ack_of key target none = record { node_addr = target; key = key; success = true; err_msg = "" }
ack_of key target (some e) = record { node_addr = target; key = key; success = false; err_msg = e }

module _ {Data : Type 0} (send_msg : String → Message Data → Option String)
    (local_write : Option (String → Data → VectorClock → Option String))
    (local_read : Option (String → (VectorClock × ℕ) × Bool)) where
  -- what the goroutine of a target itself puts on the channel of a write
  unfoldable pub write_target : String → String → Data → VectorClock → String → Option WriteAck
  write_target self_addr key text clock target =
      if test (string_discrete target self_addr)
      then (elim local_write [
        | none ↦ some (ack_of key target none)
        | some write ↦ some (ack_of key target (write key text clock))
      ])
      else (elim (send_msg target (quorum_write key text clock)) [
        | none ↦ none
        | some e ↦ some (ack_of key target (some e))
      ])

  -- what the goroutine of a target itself puts on the channel of a read
  unfoldable pub read_target : String → String → String → Option ReadResponse
  read_target self_addr key target =
      if test (string_discrete target self_addr)
      then (elim local_read [
        | none ↦ none
        | some read ↦ some record {
          node_addr = target;
          key = key;
          found = (read key).1;
          clock = (read key).0.0;
          timestamp = (read key).0.1;
        }
      ])
      else (elim (send_msg target (quorum_read key)) [ none ↦ none | some e ↦ none ])

-- the loop of `Write`: `none` for nil, else the error at the timeout
unfoldable pub write_loop : ℕ → String → ℕ → List WriteAck → Option WriteError
write_loop w key acks [] = some (write_timeout acks w key)
write_loop w key acks (ack ∷ received) =
    let counted = write_loop w key (acks + 1) received in
    let ignored = write_loop w key acks received in
    if ack.success then (if leb w (acks + 1) then none else counted) else ignored

unfoldable pub write : Config → String → List WriteAck → Option WriteError
write cfg key received = write_loop cfg.w key 0 received

unfoldable pub version_of : ReadResponse → Version
version_of resp = record {
  node_addr = resp.node_addr;
  clock = resp.clock;
  timestamp = resp.timestamp;
}

unfoldable pub resolve_read : List ReadResponse → ReadResult
resolve_read responses = elim (resolve (map version_of responses)) [
  | none ↦ panicked
  | some winner ↦ found_clock winner.clock
]

-- the timer's case in the loop of `Read`
unfoldable pub at_timeout : List ReadResponse → ReadResult
at_timeout [] = no_responses
at_timeout (resp ∷ responses) = resolve_read (resp ∷ responses)

-- the loop of `Read`
unfoldable pub read_loop : ℕ → List ReadResponse → List ReadResponse → ReadResult
read_loop r responses [] = at_timeout responses
read_loop r responses (resp ∷ received) =
    let responses' = if resp.found then responses ++ resp ∷ [] else responses in
    let rest = read_loop r responses' received in
    if leb r (length responses') then resolve_read responses' else rest

unfoldable pub read : Config → List ReadResponse → ReadResult
read cfg received = read_loop cfg.r [] received
