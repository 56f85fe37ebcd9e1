-- ===== src/Tests/Detectors.antt =====
-- A window of two intervals, and a peer that falls silent.
use dfs_go.Common.{
  ℕ, ◌≡◌, ◌≤◌, refl, Option, List, [], ◌∷◌, true, some, none, string_discrete, arith, length, ◌-◌,
}
use dfs_go.Failure.{
  Config, PeerWindow, HeartbeatService, new_peer_window, new_heartbeat_service, entry, dead,
  record_heartbeat, record_arrival, arrive, push_interval, heard, remove_peer, reap_peer, phi,
  window_phi, watch, to_suspect, to_dead, transition,
}
use dfs_go.Common.Assoc.{insert}
use mathlib.Core.List.{lookup}
use mathlib.Core.Option
use dfs_go.Failure.Ring.{latest}
use dfs_go.Failure.Window.{record_all, gaps, contents, record_all-latest}
use dfs_go.Failure.Lifecycle.{Input, beat, look, run, step}
use dfs_go.Failure.Story.{Died, dead-Died}

abbrev arrivals : List ℕ
arrivals = 6000000 ∷ 8000000 ∷ 13000000 ∷ []

record_all-latest_example :
    (w : PeerWindow) × (record_all (1000000 ∷ arrivals) (new_peer_window 2) ≡ some w)
    × (contents w ≡ latest 2 (gaps 1000000 arrivals))
    × (w.count ≤ 2)
    × (length w.intervals ≡ 2)
record_all-latest_example = record_all-latest 2 1000000 arrivals (omega arith)

kept_intervals : latest 2 (gaps 1000000 arrivals) ≡ 2 ∷ 5 ∷ []
unfolding gaps
kept_intervals = refl

abbrev slow : Config
slow = record { heartbeat_interval = 5; suspect_threshold = 8; dead_timeout = 30; window_size = 4 }

-- the milliseconds since the last arrival, for want of a distribution
abbrev silence : List ℕ → Option ℕ → ℕ → ℕ
silence intervals none now = 0
silence intervals (some last) now = now - last

abbrev past : List Input
past =
    look "a" 60
    ∷ look "a" 30
    ∷ beat "b" 15
    ∷ look "a" 10
    ∷ beat "a" 3
    ∷ beat "a" 2
    ∷ beat "a" 1
    ∷ []

abbrev start : HeartbeatService
start = new_heartbeat_service slow "me" true true

abbrev ending : Option HeartbeatService → HeartbeatService
ending none = start
ending (some hs) = hs

abbrev final : HeartbeatService
final = ending (run silence start past)

runs : run silence start past ≡ some final
unfolding run step record_heartbeat record_arrival arrive push_interval heard remove_peer reap_peer
    phi window_phi watch transition to_suspect to_dead new_heartbeat_service new_peer_window
    Option.bind string_discrete lookup insert
runs = refl

falls_silent : (entry final "a").state ≡ dead
unfolding run step record_heartbeat record_arrival arrive push_interval heard remove_peer reap_peer
    phi window_phi watch transition to_suspect to_dead new_heartbeat_service new_peer_window
    Option.bind string_discrete lookup insert
falls_silent = refl

dead-Died_example : Died silence start "a" past (entry final "a").suspect_since
dead-Died_example = dead-Died silence slow "me" "a" true true past final runs falls_silent
