-- ===== src/Failure.antt =====
-- The failure detector (Cluster/failure/detector.go): the window of inter-arrival times of each
-- peer, the phi value over it, and the reaper that moves a peer from alive to suspect to dead.
-- `time.Now()` is an argument, in nanoseconds. A phi value stands as the bits of its float64,
-- which is not negative, so its order is that of numbers; `score`, the normal distribution in
-- floating point over the intervals, the last arrival and the instant, is a parameter.
pub mod Ring
pub mod Window
pub mod Lifecycle
pub mod Story
use dfs_go.Common.{ℕ, zero, suc, ◌+◌, ◌-◌, ◌*◌, ◌/◌, ◌%◌, ◌<◌, ◌≤◌, ◌≡◌, Bool, true, false}
use dfs_go.Common.{String, string_discrete, Option, none, some, List, [], ◌∷◌, ◌++◌}
use dfs_go.Common.{ltb, leb, ◌==◌, if◌then◌else◌, length, take, test, ◌&&◌}
use dfs_go.Common.Assoc.{insert, delete}
use mathlib.Core.List.{lookup}
use mathlib.Core.Option

pub record Config : Type 0 where
  pub heartbeat_interval : ℕ
  pub suspect_threshold : ℕ
  pub dead_timeout : ℕ
  pub window_size : ℕ

-- `last_arrival` is `none` where the code has the zero time.
pub record PeerWindow : Type 0 where
  pub intervals : List ℕ
  pub head : ℕ
  pub count : ℕ
  pub last_arrival : Option ℕ
  pub capacity : ℕ

abbrev pub zeros : ℕ → List ℕ
zeros zero = []
zeros (suc n) = 0 ∷ zeros n

unfoldable pub new_peer_window : ℕ → PeerWindow
new_peer_window capacity = record {
  intervals = zeros capacity;
  head = 0;
  count = 0;
  last_arrival = none;
  capacity = capacity;
}

-- `xs[i] = x` at an index in range
abbrev pub set : List ℕ → ℕ → ℕ → List ℕ
set [] i x = []
set (y ∷ ys) zero x = x ∷ ys
set (y ∷ ys) (suc i) x = y ∷ set ys i x

-- The whole milliseconds since the last arrival, 0 where the clock went back.
abbrev pub interval_ms : ℕ → ℕ → ℕ
interval_ms last now = (now - last) / 1000000

-- `none` is the panic of an index out of range.
unfoldable pub push_interval : ℕ → ℕ → PeerWindow → Option PeerWindow
push_interval interval now w =
    if ltb w.head (length w.intervals)
    then some (record w {
      intervals = set w.intervals w.head interval;
      head = (w.head + 1) % w.capacity;
      count = if ltb w.count w.capacity then w.count + 1 else w.count;
      last_arrival = some now;
    })
    else none

-- the first arrival leaves no interval
unfoldable pub arrive : Option ℕ → ℕ → PeerWindow → Option PeerWindow
arrive none now w = some (record w { last_arrival = some now })
arrive (some last) now w = push_interval (interval_ms last now) now w

-- `record`
unfoldable pub record_arrival : PeerWindow → ℕ → Option PeerWindow
record_arrival w now = arrive w.last_arrival now w

pub data PeerState : Type 0 where
  alive suspect dead : PeerState

pub record PeerEntry : Type 0 where
  pub state : PeerState
  pub suspect_since : ℕ

abbrev pub fresh_entry : PeerEntry
fresh_entry = record { state = alive; suspect_since = 0 }

-- the callbacks that were started, oldest first
pub data Call : Type 0 where
  on_suspect on_dead : String → Call

-- `has_on_suspect` and `has_on_dead` tell whether the callback is not nil.
pub record HeartbeatService : Type 0 where
  pub cfg : Config
  pub self_addr : String
  pub windows : List (String × PeerWindow)
  pub states : List (String × PeerEntry)
  pub has_on_suspect : Bool
  pub has_on_dead : Bool
  pub calls : List Call

unfoldable pub new_heartbeat_service : Config → String → Bool → Bool → HeartbeatService
new_heartbeat_service cfg self_addr has_on_suspect has_on_dead = record {
  cfg = cfg;
  self_addr = self_addr;
  windows = [];
  states = [];
  has_on_suspect = has_on_suspect;
  has_on_dead = has_on_dead;
  calls = [];
}

abbrev pub window_or_new : Option PeerWindow → ℕ → PeerWindow
window_or_new (some w) size = w
window_or_new none size = new_peer_window size

abbrev pub entry_or_fresh : Option PeerEntry → PeerEntry
entry_or_fresh (some e) = e
entry_or_fresh none = fresh_entry

abbrev pub entry : HeartbeatService → String → PeerEntry
entry hs addr = entry_or_fresh (lookup string_discrete addr hs.states)

-- the service once the arrival is in the window
unfoldable pub heard : String → HeartbeatService → PeerWindow → HeartbeatService
heard from hs w = record hs {
  windows = insert string_discrete from w hs.windows;
  states = insert string_discrete from (record (entry hs from) { state = alive }) hs.states;
}

-- `RecordHeartbeat` of the detector and of the service; `none` is a panic in the window.
unfoldable pub record_heartbeat : String → ℕ → HeartbeatService → Option HeartbeatService
record_heartbeat from now hs =
    let window = window_or_new (lookup string_discrete from hs.windows) hs.cfg.window_size in
    Option.map (heard from hs) (record_arrival window now)

unfoldable pub remove_peer : String → HeartbeatService → HeartbeatService
remove_peer addr hs = record hs {
  windows = delete string_discrete addr hs.windows;
  states = delete string_discrete addr hs.states;
}

-- the peers to which a tick of the sender sends a heartbeat
unfoldable pub beat_targets : HeartbeatService → List String → List String
beat_targets hs [] = []
beat_targets hs (addr ∷ addrs) =
    let rest = beat_targets hs addrs in
    if test (string_discrete addr hs.self_addr) then rest else addr ∷ rest

module _ (score : List ℕ → Option ℕ → ℕ → ℕ) where
  unfoldable pub window_phi : PeerWindow → ℕ → ℕ
  window_phi w now =
      if ltb w.count 2 then 0 else score (take w.count w.intervals) w.last_arrival now

  unfoldable pub phi : HeartbeatService → String → ℕ → ℕ
  phi hs addr now = elim (lookup string_discrete addr hs.windows) [
    | none ↦ 0
    | some w ↦ window_phi w now
  ]

  unfoldable pub is_alive : HeartbeatService → String → ℕ → Bool
  is_alive hs addr now = ltb (phi hs addr now) hs.cfg.suspect_threshold

abbrev pub log_if : Bool → Call → List Call → List Call
log_if true call calls = calls ++ (call ∷ [])
log_if false call calls = calls

unfoldable pub to_suspect : String → ℕ → HeartbeatService → HeartbeatService
to_suspect addr now hs = record hs {
  states = insert string_discrete addr (record { state = suspect; suspect_since = now }) hs.states;
  calls = log_if hs.has_on_suspect (on_suspect addr) hs.calls;
}

unfoldable pub to_dead : String → ℕ → HeartbeatService → HeartbeatService
to_dead addr since hs = record hs {
  states = insert string_discrete addr (record { state = dead; suspect_since = since }) hs.states;
  calls = log_if hs.has_on_dead (on_dead addr) hs.calls;
}

-- the entry that the reaper creates for a peer it has none of
unfoldable pub watch : String → HeartbeatService → HeartbeatService
watch addr hs = record hs { states = insert string_discrete addr (entry hs addr) hs.states }

-- The switch of `reap`, on a phi value that has reached the threshold or has not, the peer's state
-- and the instant since when it is suspected.
unfoldable pub transition : Bool → PeerState → ℕ → String → ℕ → HeartbeatService → HeartbeatService
transition reached alive since addr now hs = if reached then to_suspect addr now hs else hs
transition reached suspect since addr now hs =
    if leb (since + hs.cfg.dead_timeout) now then to_dead addr since hs else hs
transition reached dead since addr now hs = hs

module _ (score : List ℕ → Option ℕ → ℕ → ℕ) where
  -- one round of `reap`
  unfoldable pub reap_peer : String → ℕ → HeartbeatService → HeartbeatService
  reap_peer addr now hs =
      let reached = leb hs.cfg.suspect_threshold (phi score hs addr now) in
      if test (string_discrete addr hs.self_addr)
      then hs
      else transition reached (entry hs addr).state (entry hs addr).suspect_since addr now
          (watch addr hs)

  -- Each peer comes with the instant at which its round looks at the clock.
  unfoldable pub reap : List (String × ℕ) → HeartbeatService → HeartbeatService
  reap [] hs = hs
  reap ((addr, now) ∷ peers) hs = reap peers (reap_peer addr now hs)
