-- ===== src/Transfer/Pausing.antt =====
-- Pausing, resuming and cancelling, over every method of the registry.
use dfs_go.Common.{
  ℕ, ◌+◌, ◌-◌, ◌*◌, ◌%◌, ◌^◌, ltb, ◌≡◌, ◌≢◌, refl, sym, ◌∙◌, ap, String, List, ◌∷◌, Bool, true,
  some, ite, string_discrete, ℕ_discrete, contains, Option-cases, Bool-cases, inl, inr, if_pos,
  if_neg,
}
use dfs_go.Common.Assoc.{insert, lookup-insert, lookup-delete}
use dfs_go.Transfer.{
  Direction, Status, paused, active, Tracked, Manager, Speeds, new_manager, find, modify,
  with_status, set_status, cancel, cancel_context, pause, is_paused, resume, set_output_dir,
  set_size, set_dek, complete, remove, register, measure, update_progress,
}
use dfs_go.Transfer.Sound.{
  IsSound, new_manager-IsSound, find-modify, modify-IsSound, fresh-IsSound, dropped-IsSound,
}

module _ {Speed : Type 0} where
  -- calling a cancel function changes no entry
  cancel_context-IsSound : (m : Manager Speed) (c : ℕ) → IsSound m → IsSound (cancel_context m c)
  unfolding find cancel_context
  cancel_context-IsSound m c h = record { old = unfold find in h.old; own = unfold find in h.own }

  remove-IsSound : (m : Manager Speed) (id : String) → IsSound m → IsSound (remove m id)
  remove-IsSound m id h =
      dropped-IsSound m (remove m id) id
        (λ q. unfold remove in unfold find in lookup-delete string_discrete id q m.transfers)
        (unfold remove in refl) h

  cancel-IsSound : (m : Manager Speed) (id : String) → IsSound m → IsSound (cancel m id).0
  cancel-IsSound m id h = elim (Option-cases (find m id)) [
    | inl e ↦ unfold cancel in rw (e, cancel) h
    | inr (t, e) ↦
        unfold cancel in
        rw (e, cancel) (cancel_context-IsSound _ t.context (unfold remove in remove-IsSound m id h))
  ]

  pause-IsSound : (m : Manager Speed) (id : String) → IsSound m → IsSound (pause m id).0
  pause-IsSound m id h = elim (Option-cases (find m id)) [
    | inl e ↦ unfold pause in rw (e, pause) h
    | inr (t, e) ↦
        unfold pause in
        rw (e, pause) (cancel_context-IsSound _ t.context (modify-IsSound m id _ (λ u. refl) h))
  ]

  -- the table after a successful Resume
  abbrev resumed : Manager Speed → String → Manager Speed
  resumed m id =
      record (modify m id (λ u. record (with_status active "" u) { context = m.contexts })) {
        contexts = m.contexts + 1;
      }

  find-resumed :
      (m : Manager Speed) (id q : String) (t : Tracked Speed)
      → find m id ≡ some t
      → find (resumed m id) q
        ≡ ite
            (string_discrete id q)
            (some (record (with_status active "" t) { context = m.contexts }))
            (find m q)
  find-resumed m id q t e =
      unfold find in
      find-modify m id q (λ u. record (with_status active "" u) { context = m.contexts }) t e

  resume-IsSound : (m : Manager Speed) (id : String) → IsSound m → IsSound (resume m id).0
  resume-IsSound m id h = elim (Option-cases (find m id)) [
    | inl e ↦ unfold resume in rw (e, resume) h
    | inr (t, e) ↦ elim (Bool-cases (is_paused t.info.status)) [
      | inr f ↦ unfold resume in rw (e, resume, f) h
      | inl f ↦
          unfold resume in
          rw (e, resume, f)
            (fresh-IsSound m (resumed m id) id
              (record (with_status active "" t) { context = m.contexts })
              (λ q. find-resumed m id q t e) refl refl h)
    ]
  ]

  cancelled-modify :
      (m : Manager Speed) (id : String) (change : Tracked Speed → Tracked Speed)
      → (modify m id change).cancelled ≡ m.cancelled
  cancelled-modify m id change = elim (Option-cases (find m id)) [
    | inl e ↦ unfold modify in rw (e, modify) refl
    | inr (u, e) ↦ unfold modify in rw (e, modify) refl
  ]

  find-registered :
      (m : Manager Speed) (id q : String) (v : Tracked Speed) (counter contexts : ℕ)
      → find
          (record m {
            transfers = insert string_discrete id v m.transfers;
            counter = counter;
            contexts = contexts;
          })
          q
        ≡ ite (string_discrete id q) (some v) (find m q)
  unfolding find
  find-registered m id q v counter contexts = lookup-insert string_discrete id q v m.transfers

  cancelled-pause :
      (m : Manager Speed) (p : String) (t : Tracked Speed)
      → find m p ≡ some t
      → (pause m p).0.cancelled ≡ t.context ∷ m.cancelled
  cancelled-pause m p t e =
      unfold pause in
      unfold cancel_context in
      rw (e, pause)
        (ap (λ l. t.context ∷ l)
          (cancelled-modify m p (λ u. record u { info = record u.info { status = paused } })))

  cancelled-cancel :
      (m : Manager Speed) (p : String) (t : Tracked Speed)
      → find m p ≡ some t
      → (cancel m p).0.cancelled ≡ t.context ∷ m.cancelled
  cancelled-cancel m p t e = unfold cancel in unfold cancel_context in rw (e, cancel) refl

  find-pause :
      (m : Manager Speed) (p q : String) (t : Tracked Speed)
      → find m p ≡ some t
      → find (pause m p).0 q
        ≡ ite
            (string_discrete p q)
            (some (record t { info = record t.info { status = paused } }))
            (find m q)
  find-pause m p q t e =
      unfold pause in
      rw (e, pause)
        (unfold cancel_context in
          unfold find in
          find-modify m p q (λ u. record u { info = record u.info { status = paused } }) t e)

  contexts-pause :
      (m : Manager Speed) (p : String) (t : Tracked Speed)
      → find m p ≡ some t
      → (pause m p).0.contexts ≡ m.contexts
  contexts-pause m p t e =
      unfold pause in unfold cancel_context in unfold modify in rw (e, pause) (rw (e, modify) refl)

  resume_done :
      (m : Manager Speed) (id : String) (t : Tracked Speed)
      → find m id ≡ some t
      → is_paused t.info.status ≡ true
      → resume m id ≡ (resumed m id, inr m.contexts)
  resume_done m id t e f = unfold resume in rw (e, resume, f) refl

  -- Resuming a transfer that was paused, whatever its status was before, succeeds with a context
  -- of its own; the entry has its old fields but for the status Active and no error, and the other
  -- transfers are as they were.
  pub resume-pause :
      (m : Manager Speed) (p : String) (t : Tracked Speed)
      → find m p ≡ some t
      → ((resume (pause m p).0 p).1 ≡ inr m.contexts)
        × (find (resume (pause m p).0 p).0 p
            ≡ some (record (with_status active "" t) { context = m.contexts }))
        × ((q : String) → p ≢ q → find (resume (pause m p).0 p).0 q ≡ find m q)
  resume-pause m p t e =
      let stopped = record t { info = record t.info { status = paused } } in
      let here = find-pause m p p t e ∙ if_pos (string_discrete p p) refl _ _ in
      let done = resume_done (pause m p).0 p stopped here (unfold is_paused in refl) in
      let same = contexts-pause m p t e in
      (
        ap (λ x. x.1) done ∙ ap inr same,
        ap (λ x. find x.0 p) done
            ∙ find-resumed (pause m p).0 p p stopped here
            ∙ if_pos (string_discrete p p) refl _ _
            ∙ ap (λ (c : ℕ). some (record (with_status active "" stopped) { context = c })) same
            ∙ again t m.contexts,
        λ q n.
            ap (λ x. find x.0 q) done
            ∙ find-resumed (pause m p).0 p q stopped here
            ∙ if_neg (string_discrete p q) n _ _
            ∙ find-pause m p q t e
            ∙ if_neg (string_discrete p q) n _ _,
      )
    where
      again :
          (u : Tracked Speed) (c : ℕ)
          → some
              (record (with_status active ""
                (record u { info = record u.info { status = paused } })) { context = c })
            ≡ some (record (with_status active "" u) { context = c })
      again u c = unfold with_status in refl

  module _ (format_id : ℕ → String) (speeds : Speeds Speed) where
    -- one call of a method of the registry
    pub data Step (m : Manager Speed) : Manager Speed → Type 0 where
      registered :
          (d : Direction) (key name path : String) (size : ℕ) (b c e : Bool) (now : ℕ)
          → Step m (register format_id speeds m d key name path size b c e now).0
      status_set : (id : String) (s : Status) (error : String) → Step m (set_status m id s error)
      progressed :
          (id : String) (done all bytes now : ℕ)
          → Step m (update_progress speeds m id done all bytes now)
      cancels : (id : String) → Step m (cancel m id).0
      pauses : (id : String) → Step m (pause m id).0
      resumes : (id : String) → Step m (resume m id).0
      dir_set : (id dir : String) → Step m (set_output_dir m id dir)
      size_set : (id : String) (size : ℕ) → Step m (set_size m id size)
      dek_set : (id : String) (dek : List ℕ) → Step m (set_dek m id dek)
      completes : (id : String) → Step m (complete m id)
      removes : (id : String) → Step m (remove m id)

    pub data Reach : Manager Speed → Type 0 where
      start : Reach new_manager
      next : {m m' : Manager Speed} → Reach m → Step m m' → Reach m'

    measure-context :
        (t : Tracked Speed) (bytes now : ℕ) → (measure speeds t bytes now).context ≡ t.context
    measure-context t bytes now = elim (Option-cases t.last_time) [
      | inl e ↦ unfold measure in rw (e, measure) refl
      | inr (last, e) ↦ elim (Bool-cases (ltb (5 * 10 ^ 8) (now - last))) [
        | inl f ↦ unfold measure in rw (e, measure, f) refl
        | inr f ↦ unfold measure in rw (e, measure, f) refl
      ]
    ]

    register-IsSound :
        (m : Manager Speed) (d : Direction) (key name path : String) (size : ℕ) (b c e : Bool)
        (now : ℕ)
        → IsSound m
        → IsSound (register format_id speeds m d key name path size b c e now).0
    unfolding register
    register-IsSound m d key name path size b c e now h =
        fresh-IsSound m _ (format_id ((m.counter + 1) % 2 ^ 32)) _
          (λ q. find-registered m (format_id ((m.counter + 1) % 2 ^ 32)) q _ _ _) refl refl h

    Step-IsSound : {m m' : Manager Speed} → Step m m' → IsSound m → IsSound m'
    Step-IsSound {m} (registered d key name path size b c e now) h =
        register-IsSound m d key name path size b c e now h
    Step-IsSound {m} (status_set id s error) h =
        unfold set_status in modify-IsSound m id _ (λ t. unfold with_status in refl) h
    Step-IsSound {m} (progressed id done all bytes now) h =
        unfold update_progress in modify-IsSound m id _ (λ t. measure-context _ bytes now) h
    Step-IsSound {m} (cancels id) h = cancel-IsSound m id h
    Step-IsSound {m} (pauses id) h = pause-IsSound m id h
    Step-IsSound {m} (resumes id) h = resume-IsSound m id h
    Step-IsSound {m} (dir_set id dir) h =
        unfold set_output_dir in modify-IsSound m id _ (λ t. refl) h
    Step-IsSound {m} (size_set id size) h = unfold set_size in modify-IsSound m id _ (λ t. refl) h
    Step-IsSound {m} (dek_set id dek) h = unfold set_dek in modify-IsSound m id _ (λ t. refl) h
    Step-IsSound {m} (completes id) h = unfold complete in modify-IsSound m id _ (λ t. refl) h
    Step-IsSound {m} (removes id) h = remove-IsSound m id h

    Reach-IsSound : {m : Manager Speed} → Reach m → IsSound m
    Reach-IsSound start = new_manager-IsSound
    Reach-IsSound (next r s) = Step-IsSound s (Reach-IsSound r)

    -- Whatever calls the registry has been through, pausing or cancelling a transfer cancels its
    -- context, and the context of no other transfer in the registry.
    pub pause_isolated :
        (m : Manager Speed) (p q : String) (t u : Tracked Speed)
        → Reach m
        → find m p ≡ some t
        → find m q ≡ some u
        → p ≢ q
        → (contains ℕ_discrete (pause m p).0.cancelled t.context ≡ true)
          × (contains ℕ_discrete (cancel m p).0.cancelled t.context ≡ true)
          × (contains ℕ_discrete (pause m p).0.cancelled u.context
              ≡ contains ℕ_discrete m.cancelled u.context)
          × (contains ℕ_discrete (cancel m p).0.cancelled u.context
              ≡ contains ℕ_discrete m.cancelled u.context)
    pause_isolated m p q t u r e f n =
        let apart = λ (c : u.context ≡ t.context). n ((Reach-IsSound r).own p q t u e f (sym c)) in
        rw (cancelled-pause m p t e, cancelled-cancel m p t e)
          (
            unfold contains in if_pos (ℕ_discrete t.context t.context) refl _ _,
            unfold contains in if_pos (ℕ_discrete t.context t.context) refl _ _,
            unfold contains in if_neg (ℕ_discrete u.context t.context) apart _ _,
            unfold contains in if_neg (ℕ_discrete u.context t.context) apart _ _,
          )
