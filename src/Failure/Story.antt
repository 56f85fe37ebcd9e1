-- ===== src/Failure/Story.antt =====
-- Why the reaper of Cluster/failure/detector.go declares a peer dead.
use dfs_go.Common.{ℕ, ◌+◌, ◌≤◌, ◌≡◌, refl, sym, ap, ◌∙◌, arith, Bool, true, false}
use dfs_go.Common.{String, string_discrete, Option, some, List, [], ◌∷◌, ◌++◌, ite, All}
use dfs_go.Common.{if_pos, if_neg, leb, Bool-cases, inl, inr}
use dfs_go.Failure.{
  Config, HeartbeatService, PeerEntry, PeerState, alive, suspect, dead, PeerWindow,
}
use dfs_go.Failure.{entry, fresh_entry, heard, record_heartbeat, remove_peer, phi}
use dfs_go.Failure.{watch, to_suspect, to_dead, transition, reap_peer, new_heartbeat_service}
use dfs_go.Failure.Lifecycle.{
  Input, beat, gone, look, step, run, entry_of-insert, entry_of-delete, moved, entry-watch,
  reap_peer-cases, cfg-reap_peer,
}
use mathlib.Core.List.{lookup}
use mathlib.Core.Path.{subst}
use mathlib.Core.Option

-- The story of one peer.
module _ (score : List ℕ → Option ℕ → ℕ → ℕ) (start : HeartbeatService) (addr : String) where
  -- neither a heartbeat nor the removal of the peer
  abbrev pub IsQuiet : Input → Type 0
  IsQuiet (beat a t) = ¬ (a ≡ addr)
  IsQuiet (gone a) = ¬ (a ≡ addr)
  IsQuiet (look a t) = Unit

  -- At `since` the reaper found the phi value at the threshold, and the peer was quiet ever since.
  abbrev pub Suspected : List Input → ℕ → Type 0
  Suspected past since =
      (between older : List Input) × (hs : HeartbeatService) × (past
        ≡ between ++ (look addr since ∷ older))
      × All IsQuiet between
      × (run score start older ≡ some hs)
      × (leb hs.cfg.suspect_threshold (phi score hs addr since) ≡ true)

  -- The reaper came a second time when the peer had been suspected, and quiet, for the timeout.
  abbrev pub Died : List Input → ℕ → Type 0
  Died past since =
      (later earlier : List Input) × (now : ℕ) × (past ≡ later ++ (look addr now ∷ earlier))
      × All IsQuiet later
      × Suspected earlier since
      × (since + start.cfg.dead_timeout ≤ now)

  abbrev Story : List Input → PeerState → ℕ → Type 0
  Story past alive since = Unit
  Story past suspect since = Suspected past since
  Story past dead since = Died past since

  abbrev StoryOf : List Input → PeerEntry → Type 0
  StoryOf past e = Story past e.state e.suspect_since

  Suspected-later :
      (i : Input) (past : List Input) (since : ℕ)
      → IsQuiet i
      → Suspected past since
      → Suspected (i ∷ past) since
  Suspected-later i past since quiet (between, older, hs, e, q, r, p) =
      (i ∷ between, older, hs, ap (◌∷◌ i) e, (quiet, q), r, p)

  Story-later :
      (i : Input) (past : List Input) (state : PeerState) (since : ℕ)
      → IsQuiet i
      → Story past state since
      → Story (i ∷ past) state since
  Story-later i past alive since quiet s = tt
  Story-later i past suspect since quiet s = Suspected-later i past since quiet s
  Story-later i past dead since quiet (later, earlier, now, e, q, s, le) =
      (i ∷ later, earlier, now, ap (◌∷◌ i) e, (quiet, q), s, le)

  Story-moved :
      (past : List Input) (hs : HeartbeatService) (reached : Bool) (state : PeerState)
      (since now : ℕ)
      → run score start past ≡ some hs
      → leb hs.cfg.suspect_threshold (phi score hs addr now) ≡ reached
      → Story past state since
      → StoryOf (look addr now ∷ past) (moved reached state since now start.cfg.dead_timeout)
  Story-moved past hs true alive since now r e s = ([], past, hs, refl, tt, r, e)
  Story-moved past hs false alive since now r e s = tt
  Story-moved past hs reached suspect since now r e s =
      elim (Bool-cases (leb (since + start.cfg.dead_timeout) now)) [
        | inl h ↦ rw h ([], past, now, refl, tt, s, ground arith)
        | inr h ↦ rw h (Suspected-later (look addr now) past since tt s)
      ]
  Story-moved past hs reached dead since now r e s =
      Story-later (look addr now) past dead since tt s

  -- an entry that an input to another peer leaves as it was
  StoryOf-kept :
      (i : Input) (past : List Input) (e e' : PeerEntry)
      → IsQuiet i
      → e' ≡ e
      → StoryOf past e
      → StoryOf (i ∷ past) e'
  StoryOf-kept i past e e' quiet same s =
      subst (StoryOf (i ∷ past)) (sym same) (Story-later i past e.state e.suspect_since quiet s)

  -- an entry after a heartbeat or a removal
  StoryOf-ite :
      (i : Input) (past : List Input) (a : String) (e e1 e' : PeerEntry)
      → (¬ (a ≡ addr) → IsQuiet i)
      → e1.state ≡ alive
      → e' ≡ ite (string_discrete a addr) e1 e
      → StoryOf past e
      → StoryOf (i ∷ past) e'
  StoryOf-ite i past a e e1 e' quiet fresh same s = elim (string_discrete a addr) [
    | yes p ↦
        let state : e'.state ≡ alive =
          ap (λ (x : PeerEntry). x.state) (same ∙ if_pos (string_discrete a addr) p e1 e) ∙ fresh in
        subst (λ st. Story (i ∷ past) st e'.suspect_since) (sym state) tt
    | no n ↦ StoryOf-kept i past e e' (quiet n) (same ∙ if_neg (string_discrete a addr) n e1 e) s
  ]

  StoryOf-heard :
      (a : String) (t : ℕ) (past : List Input) (hs : HeartbeatService) (w : PeerWindow)
      → StoryOf past (entry hs addr)
      → StoryOf (beat a t ∷ past) (entry (heard a hs w) addr)
  StoryOf-heard a t past hs w s =
      StoryOf-ite (beat a t) past a (entry hs addr) (record (entry hs a) { state = alive })
        (entry (heard a hs w) addr) (λ n. n) refl
        (unfold heard in entry_of-insert a addr (record (entry hs a) { state = alive }) hs.states) s

  StoryOf-gone :
      (a : String) (past : List Input) (hs : HeartbeatService)
      → StoryOf past (entry hs addr)
      → StoryOf (gone a ∷ past) (entry (remove_peer a hs) addr)
  StoryOf-gone a past hs s =
      StoryOf-ite (gone a) past a (entry hs addr) fresh_entry (entry (remove_peer a hs) addr)
        (λ n. n) refl (unfold remove_peer in entry_of-delete a addr hs.states) s

  unmoved :
      (a : String) (e : PeerEntry) (hs : HeartbeatService)
      → entry hs a ≡ e
      → entry hs addr ≡ ite (string_discrete a addr) e (entry hs addr)
  unmoved a e hs h = elim (string_discrete a addr) [
    | yes p ↦ ap (entry hs) (sym p) ∙ h ∙ sym (if_pos (string_discrete a addr) p e (entry hs addr))
    | no n ↦ sym (if_neg (string_discrete a addr) n e (entry hs addr))
  ]

  -- What the switch of the reaper makes of the peer's entry: a round on the peer itself moves it,
  -- a round on another leaves it.
  entry-transition :
      (reached : Bool) (state : PeerState) (since : ℕ) (a : String) (now : ℕ)
      (hs : HeartbeatService)
      → entry hs a ≡ record { state = state; suspect_since = since }
      → entry (transition reached state since a now hs) addr
        ≡ ite
            (string_discrete a addr)
            (moved reached state since now hs.cfg.dead_timeout)
            (entry hs addr)
  unfolding transition to_suspect to_dead
  entry-transition true alive since a now hs e = entry_of-insert a addr _ hs.states
  entry-transition false alive since a now hs e = unmoved a _ hs e
  entry-transition reached suspect since a now hs e =
      elim (Bool-cases (leb (since + hs.cfg.dead_timeout) now)) [
        | inl h ↦ rw h (entry_of-insert a addr _ hs.states)
        | inr h ↦ rw h (unmoved a _ hs e)
      ]
  entry-transition reached dead since a now hs e = unmoved a _ hs e

  StoryOf-self :
      (t : ℕ) (past : List Input) (hs : HeartbeatService)
      → run score start past ≡ some hs
      → hs.cfg ≡ start.cfg
      → StoryOf past (entry hs addr)
      → StoryOf (look addr t ∷ past) (entry (reap_peer score addr t hs) addr)
  unfolding watch
  StoryOf-self t past hs r c s = elim (reap_peer-cases score addr t hs) [
    | inl e ↦ StoryOf-kept (look addr t) past (entry hs addr) _ tt (ap (λ h. entry h addr) e) s
    | inr e ↦
        let same : entry (reap_peer score addr t hs) addr ≡ after =
          ap (λ h. entry h addr) e
          ∙ entry-transition reached state since addr t (watch addr hs) (entry-watch addr addr hs)
          ∙ if_pos (string_discrete addr addr) refl _ _
          ∙ ap (λ (cfg : Config). moved reached state since t cfg.dead_timeout) c in
        subst (StoryOf (look addr t ∷ past)) (sym same)
          (Story-moved past hs reached state since t r refl s)
  ]
    where
      reached : Bool
      reached = leb hs.cfg.suspect_threshold (phi score hs addr t)

      state : PeerState
      state = (entry hs addr).state

      since : ℕ
      since = (entry hs addr).suspect_since

      after : PeerEntry
      after = moved reached state since t start.cfg.dead_timeout

  StoryOf-other :
      (a : String) (t : ℕ) (past : List Input) (hs : HeartbeatService)
      → ¬ (a ≡ addr)
      → StoryOf past (entry hs addr)
      → StoryOf (look a t ∷ past) (entry (reap_peer score a t hs) addr)
  StoryOf-other a t past hs n s = elim (reap_peer-cases score a t hs) [
    | inl e ↦ StoryOf-kept (look a t) past (entry hs addr) _ tt (ap (λ h. entry h addr) e) s
    | inr e ↦
        StoryOf-kept (look a t) past (entry hs addr) _ tt
          (ap (λ h. entry h addr) e
            ∙ entry-transition (leb hs.cfg.suspect_threshold (phi score hs a t)) (entry hs a).state
                (entry hs a).suspect_since a t (watch a hs) (entry-watch a a hs)
            ∙ if_neg (string_discrete a addr) n _ _
            ∙ entry-watch a addr hs)
          s
  ]

  StoryOf-look :
      (a : String) (t : ℕ) (past : List Input) (hs : HeartbeatService)
      → run score start past ≡ some hs
      → hs.cfg ≡ start.cfg
      → StoryOf past (entry hs addr)
      → StoryOf (look a t ∷ past) (entry (reap_peer score a t hs) addr)
  StoryOf-look a t past hs r c s = elim (string_discrete a addr) [
    | yes p ↦
        subst (λ x. StoryOf (look x t ∷ past) (entry (reap_peer score x t hs) addr)) (sym p)
          (StoryOf-self t past hs r c s)
    | no n ↦ StoryOf-other a t past hs n s
  ]

  StoryOf-step :
      (i : Input) (past : List Input) (hs hs' : HeartbeatService)
      → run score start past ≡ some hs
      → step score i hs ≡ some hs'
      → hs.cfg ≡ start.cfg
      → StoryOf past (entry hs addr)
      → (hs'.cfg ≡ start.cfg) × StoryOf (i ∷ past) (entry hs' addr)
  unfolding step record_heartbeat
  StoryOf-step (beat a t) past hs hs' r e c s =
      let (w, arrived, q) = (Option.map-eq-some_iff (heard a hs) _).0 e in
      subst (λ h. (h.cfg ≡ start.cfg) × StoryOf (beat a t ∷ past) (entry h addr)) q
        ((unfold heard in c), StoryOf-heard a t past hs w s)
  StoryOf-step (gone a) past hs hs' r e c s =
      let q : remove_peer a hs ≡ hs' = cc in
      subst (λ h. (h.cfg ≡ start.cfg) × StoryOf (gone a ∷ past) (entry h addr)) q
        ((unfold remove_peer in c), StoryOf-gone a past hs s)
  StoryOf-step (look a t) past hs hs' r e c s =
      let q : reap_peer score a t hs ≡ hs' = cc in
      subst (λ h. (h.cfg ≡ start.cfg) × StoryOf (look a t ∷ past) (entry h addr)) q
        (cfg-reap_peer score a t hs ∙ c, StoryOf-look a t past hs r c s)

  StoryOf-run :
      (past : List Input) (hs : HeartbeatService)
      → start.states ≡ []
      → run score start past ≡ some hs
      → (hs.cfg ≡ start.cfg) × StoryOf past (entry hs addr)
  unfolding run
  StoryOf-run [] hs empty e =
      let q : start ≡ hs = cc in
      subst (λ h. (h.cfg ≡ start.cfg) × StoryOf [] (entry h addr)) q
        (refl, rw empty (unfold lookup in tt))
  StoryOf-run (i ∷ past) hs empty e =
      let (before, r, s) = (Option.bind-eq-some_iff (run score start past) (step score i)).0 e in
      let (c, story) = StoryOf-run past before empty r in StoryOf-step i past before hs r s c story

-- A peer is dead for a service that started without peers only if the reaper once found its phi
-- value at the threshold and came again when the dead timeout had passed, and from that first
-- round on neither a heartbeat of the peer nor its removal reached the service.
pub dead-Died :
    (score : List ℕ → Option ℕ → ℕ → ℕ) (cfg : Config) (self addr : String) (s d : Bool)
    (past : List Input) (hs : HeartbeatService)
    → run score (new_heartbeat_service cfg self s d) past ≡ some hs
    → (entry hs addr).state ≡ dead
    → Died score (new_heartbeat_service cfg self s d) addr past (entry hs addr).suspect_since
unfolding new_heartbeat_service
dead-Died score cfg self addr s d past hs r e =
    let (c, story) = StoryOf-run score (new_heartbeat_service cfg self s d) addr past hs refl r in
    subst
      (λ st.
        Story score (new_heartbeat_service cfg self s d) addr past st (entry hs addr).suspect_since)
      e story
