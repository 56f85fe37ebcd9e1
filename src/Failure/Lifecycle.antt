-- ===== src/Failure/Lifecycle.antt =====
-- What the inputs of the failure detector (Cluster/failure/detector.go) do to a peer's entry.
use dfs_go.Common.{ℕ, ◌+◌, ◌≡◌, refl, ap, ◌∙◌, arith, Bool, true, false}
use dfs_go.Common.{String, string_discrete, Option, some, List, [], ◌∷◌, ite}
use dfs_go.Common.{if_pos, if_neg, leb, if◌then◌else◌, test, Bool-cases, inl, inr, ◌⊎◌}
use dfs_go.Common.Assoc.{insert, delete, lookup-insert, lookup-delete}
use dfs_go.Failure.{HeartbeatService, PeerEntry, PeerState, alive, suspect, dead}
use dfs_go.Failure.{entry, entry_or_fresh, fresh_entry, record_heartbeat, remove_peer, phi}
use dfs_go.Failure.{watch, to_suspect, to_dead, transition, reap_peer}
use mathlib.Core.List.{lookup}
use mathlib.Core.Option

-- What reaches the service: a heartbeat at an instant, a removal, a round of the reaper.
pub data Input : Type 0 where
  beat : String → ℕ → Input
  gone : String → Input
  look : String → ℕ → Input

abbrev pub entry_of : List (String × PeerEntry) → String → PeerEntry
entry_of states addr = entry_or_fresh (lookup string_discrete addr states)

pub entry_of-insert :
    (a addr : String) (e : PeerEntry) (m : List (String × PeerEntry))
    → entry_of (insert string_discrete a e m) addr
      ≡ ite (string_discrete a addr) e (entry_of m addr)
entry_of-insert a addr e m = elim (string_discrete a addr) [
  | yes same ↦ ground (arith, lookup-insert string_discrete a addr e m)
  | no other ↦ ground (arith, lookup-insert string_discrete a addr e m)
]

pub entry_of-delete :
    (a addr : String) (m : List (String × PeerEntry))
    → entry_of (delete string_discrete a m) addr
      ≡ ite (string_discrete a addr) fresh_entry (entry_of m addr)
entry_of-delete a addr m = elim (string_discrete a addr) [
  | yes same ↦ ground (arith, lookup-delete string_discrete a addr m)
  | no other ↦ ground (arith, lookup-delete string_discrete a addr m)
]

-- the state and the instant of suspicion after the switch
abbrev pub moved : Bool → PeerState → ℕ → ℕ → ℕ → PeerEntry
moved reached alive since now timeout =
    if reached
    then record { state = suspect; suspect_since = now }
    else record { state = alive; suspect_since = since }
moved reached suspect since now timeout =
    if leb (since + timeout) now
    then record { state = dead; suspect_since = since }
    else record { state = suspect; suspect_since = since }
moved reached dead since now timeout = record { state = dead; suspect_since = since }

module _ (score : List ℕ → Option ℕ → ℕ → ℕ) where
  unfoldable pub step : Input → HeartbeatService → Option HeartbeatService
  step (beat addr now) hs = record_heartbeat addr now hs
  step (gone addr) hs = some (remove_peer addr hs)
  step (look addr now) hs = some (reap_peer score addr now hs)

  -- the service after inputs, the newest of which comes first
  unfoldable pub run : HeartbeatService → List Input → Option HeartbeatService
  run start [] = some start
  run start (i ∷ past) = Option.bind (run start past) (step i)

pub entry-watch : (a b : String) (hs : HeartbeatService) → entry (watch a hs) b ≡ entry hs b
unfolding watch
entry-watch a b hs = entry_of-insert a b (entry hs a) hs.states ∙ elim (string_discrete a b) [
  | yes p ↦ if_pos (string_discrete a b) p (entry hs a) (entry hs b) ∙ ap (entry hs) p
  | no n ↦ if_neg (string_discrete a b) n (entry hs a) (entry hs b)
]

pub reap_peer-cases :
    (score : List ℕ → Option ℕ → ℕ → ℕ) (a : String) (t : ℕ) (hs : HeartbeatService)
    → (reap_peer score a t hs ≡ hs)
      ⊎ (reap_peer score a t hs
          ≡ transition
              (leb hs.cfg.suspect_threshold (phi score hs a t))
              (entry hs a).state
              (entry hs a).suspect_since
              a
              t
              (watch a hs))
unfolding reap_peer
reap_peer-cases score a t hs = elim (Bool-cases (test (string_discrete a hs.self_addr))) [
  | inl h ↦ inl (rw h refl)
  | inr h ↦ inr (rw h refl)
]

pub cfg-transition :
    (reached : Bool) (state : PeerState) (since : ℕ) (a : String) (now : ℕ) (hs : HeartbeatService)
    → (transition reached state since a now hs).cfg ≡ hs.cfg
unfolding transition to_suspect to_dead
cfg-transition true alive since a now hs = refl
cfg-transition false alive since a now hs = refl
cfg-transition reached suspect since a now hs =
    elim (Bool-cases (leb (since + hs.cfg.dead_timeout) now)) [
      | inl h ↦ rw h refl
      | inr h ↦ rw h refl
    ]
cfg-transition reached dead since a now hs = refl

pub cfg-reap_peer :
    (score : List ℕ → Option ℕ → ℕ → ℕ) (a : String) (t : ℕ) (hs : HeartbeatService)
    → (reap_peer score a t hs).cfg ≡ hs.cfg
cfg-reap_peer score a t hs = elim (reap_peer-cases score a t hs) [
  | inl e ↦ ap (λ (h : HeartbeatService). h.cfg) e
  | inr e ↦
      ap (λ (h : HeartbeatService). h.cfg) e
      ∙ cfg-transition _ _ _ a t (watch a hs)
      ∙ (unfold watch in refl)
]
