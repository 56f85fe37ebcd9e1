-- ===== src/Handoff/Accounting.antt =====
-- The accounting of the hint store: what every operation of it keeps.
use dfs_go.Common.{
  ℕ, ◌+◌, ◌^◌, ◌≤◌, ◌<◌, ◌≡◌, refl, sym, ap, String, List, [], ◌∷◌, ◌++◌, Bool, true, some, ltb,
  length, total, select, string_discrete, arith, All, Bool-cases, inl, inr, not, test,
  length-append, total-append, total-select-le, length-select-le, Option-cases, ◌==◌, ltb→le, ◌∙◌,
}
use dfs_go.Common.Assoc.{keys}
use dfs_go.Handoff.{
  Hint, Store, Os, retain, evict_oldest, hints_of, set_hints, exceeds_budget, replace_hint, persist,
  add_hint, delete_hint, update_hint, purge_addr, purge_loop, purge_expired, is_fresh,
}
use dfs_go.Handoff.Sizes.{
  sizes, all_sizes, retain-select, retain-sizes, evict_oldest-sizes, evict_oldest-length,
  evict_oldest-le, all_sizes-insert, sizes-at-le, IsCapped, insert-IsCapped, length-at, add64_exact,
  above64_exact,
}

-- The total is that of the hints and within the budget, and no target is above its cap.
pub record IsSound {Disk : Type 0} (s : Store Disk) : Type 0 where
  pub some_hint : 0 < s.max_hints
  pub bounded : s.max_data_size < 2 ^ 63
  pub capped : IsCapped s.max_hints s.hints
  pub counted : s.total_data_size ≡ all_sizes s.hints
  pub in_budget : s.total_data_size ≤ s.max_data_size

replace_hint-sizes :
    (h : Hint) (hs gs : List Hint)
    → All (λ g. g.key ≡ h.key → g.data_size ≡ h.data_size) hs
    → replace_hint h hs ≡ some gs
    → (sizes gs ≡ sizes hs) × (length gs ≡ length hs)
unfolding replace_hint total
replace_hint-sizes h [] gs same e = absurd (ground (arith, e))
replace_hint-sizes h (g ∷ hs) gs same e = elim (string_discrete g.key h.key) [
  | yes k ↦
      let eq : h ∷ hs ≡ gs = ground (arith, e) in rw (sym eq) (omega (arith, same.0 k), omega arith)
  | no k ↦ elim (Option-cases (replace_hint h hs)) [
    | inl r ↦ absurd (ground (arith, e))
    | inr (ts, r) ↦
        let eq : g ∷ ts ≡ gs = ground (arith, e, r) in
        let (size, len) = replace_hint-sizes h hs ts same.1 r in
        rw (sym eq) (omega (arith, size), omega (arith, len))
  ]
]

select-length :
    (keep : Hint → Bool) (hs : List Hint)
    → length (select keep hs) ≡ length hs
    → select keep hs ≡ hs
unfolding select
select-length keep [] e = refl
select-length keep (h ∷ hs) e = elim (Bool-cases (keep h)) [
  | inl k ↦ rw k (ap (◌∷◌ h) (select-length keep hs (omega (arith, rw k at e))))
  | inr k ↦ absurd (omega (arith, rw k at e, length-select-le keep hs))
]

eq_of_test : (a b : ℕ) → (a == b) ≡ true → a ≡ b
eq_of_test a b h = ground arith

module _ {Disk : Type 0} where
  -- a change of one target's hints that keeps the count
  pub set_hints-IsSound :
      (s : Store Disk) (addr : String) (hs : List Hint) (size : ℕ)
      → IsSound s
      → length hs ≤ s.max_hints
      → size + sizes (hints_of s addr) ≡ s.total_data_size + sizes hs
      → size ≤ s.max_data_size
      → IsSound (record (set_hints s addr hs) { total_data_size = size })
  unfolding set_hints hints_of
  set_hints-IsSound s addr hs size h len count fits = record {
    some_hint = h.some_hint;
    bounded = h.bounded;
    capped = insert-IsCapped s.max_hints addr hs s.hints h.capped len;
    counted =
        omega (arith, count, h.counted, all_sizes-insert addr hs s.hints, sizes-at-le s.hints addr);
    in_budget = fits;
  }

  pub sizes-hints_of-le :
      (s : Store Disk) (addr : String) → IsSound s → sizes (hints_of s addr) ≤ s.total_data_size
  unfolding hints_of
  sizes-hints_of-le s addr h = omega (arith, h.counted, sizes-at-le s.hints addr)

  pub length-hints_of :
      (s : Store Disk) (addr : String) → IsSound s → length (hints_of s addr) ≤ s.max_hints
  unfolding hints_of
  length-hints_of s addr h = length-at s.max_hints s.hints addr h.capped

  -- what the store does to the hints that `retain` leaves
  pub retain-IsSound :
      (keep : Hint → Bool) (s : Store Disk) (addr : String)
      → IsSound s
      → (left : List Hint × ℕ) → left ≡ retain keep s.total_data_size (hints_of s addr)
      → IsSound (record (set_hints s addr left.0) { total_data_size = left.1 })
  retain-IsSound keep s addr h left e =
      let hs = hints_of s addr in
      let kept = ap (λ p. p.0) e ∙ retain-select keep s.total_data_size hs in
      let count =
        retain-sizes keep s.total_data_size hs (sizes-hints_of-le s addr h)
          (omega (arith, h.in_budget, h.bounded)) in
      let less = total-select-le (λ x. x.data_size) keep hs in
      set_hints-IsSound s addr left.0 left.1 h
        (rw kept (omega (arith, length-select-le keep hs, length-hints_of s addr h)))
        (rw (kept, ap (λ p. p.1) e) count)
        (rw (ap (λ p. p.1) e) (omega (arith, count, less, h.in_budget)))

  size-IsSound :
      (s : Store Disk) (size : ℕ)
      → size ≡ s.total_data_size
      → IsSound s
      → IsSound (record s { total_data_size = size })
  size-IsSound s size e h = record {
    some_hint = h.some_hint;
    bounded = h.bounded;
    capped = h.capped;
    counted = e ∙ h.counted;
    in_budget = rw e h.in_budget;
  }

  -- where nothing is purged the total stays
  unpurged :
      (keep : Hint → Bool) (s : Store Disk) (addr : String)
      → IsSound s
      → length (retain keep s.total_data_size (hints_of s addr)).0 ≡ length (hints_of s addr)
      → (retain keep s.total_data_size (hints_of s addr)).1 ≡ s.total_data_size
  unpurged keep s addr h e =
      let hs = hints_of s addr in
      let all =
        select-length keep hs (ap length (sym (retain-select keep s.total_data_size hs)) ∙ e) in
      let count =
        retain-sizes keep s.total_data_size hs (sizes-hints_of-le s addr h)
          (omega (arith, h.in_budget, h.bounded)) in
      let same = ap sizes all in omega (arith, count, same)

module _ {Disk Bytes : Type 0} (os : Os Disk Bytes) where
  disk-IsSound : (s : Store Disk) (disk : Disk) → IsSound s → IsSound (record s { disk = disk })
  disk-IsSound s disk h = record {
    some_hint = h.some_hint;
    bounded = h.bounded;
    capped = h.capped;
    counted = h.counted;
    in_budget = h.in_budget;
  }

  pub persist-IsSound : (s : Store Disk) (addr : String) → IsSound s → IsSound (persist os s addr).0
  unfolding persist
  persist-IsSound s addr h = go (hints_of s addr) refl
    where
      go : (hs : List Hint) → hints_of s addr ≡ hs → IsSound (persist os s addr).0
      go [] e = rw (e, persist) (disk-IsSound s _ h)
      go (x ∷ hs) e = elim (Option-cases (os.marshal (x ∷ hs))) [
        | inl m ↦ rw (e, persist, m) h
        | inr (text, m) ↦ rw (e, persist, m) (disk-IsSound s _ h)
      ]

  -- the guard of AddHint is exact where the sum fits an int64
  budget :
      (s : Store Disk) (h : Hint)
      → IsSound s
      → s.max_data_size + h.data_size < 2 ^ 63
      → 0 < s.max_data_size
      → exceeds_budget s h.data_size ≡ ltb s.max_data_size (s.total_data_size + h.data_size)
  unfolding exceeds_budget
  budget s h sound small limited =
      rw
        (
          above64_exact s.max_data_size 0 sound.bounded (omega arith),
          add64_exact s.total_data_size h.data_size (omega (arith, sound.in_budget)),
          above64_exact (s.total_data_size + h.data_size) s.max_data_size
              (omega (arith, sound.in_budget)) sound.bounded,
        )
        (ground arith)

  pub add_hint-IsSound :
      (s : Store Disk) (h : Hint)
      → IsSound s
      → s.max_data_size + h.data_size < 2 ^ 63
      → 0 < s.max_data_size
      → IsSound (add_hint os s h).0
  unfolding add_hint
  add_hint-IsSound s h sound small limited =
      let hs = hints_of s h.target_addr in
      let room = evict_oldest s.max_hints s.total_data_size hs in
      elim (Bool-cases (exceeds_budget s h.data_size)) [
        | inl e ↦ rw e sound
        | inr e ↦
            let fits : s.total_data_size + h.data_size ≤ s.max_data_size =
              ltb→le s.max_data_size (s.total_data_size + h.data_size)
                (sym (budget s h sound small limited) ∙ e) in
            let count =
              evict_oldest-sizes s.max_hints s.total_data_size hs
                (sizes-hints_of-le s h.target_addr sound)
                (omega (arith, sound.in_budget, sound.bounded)) in
            let fewer = evict_oldest-le s.max_hints s.total_data_size hs in
            rw e (
              persist-IsSound _ h.target_addr (
                set_hints-IsSound s h.target_addr (room.0 ++ h ∷ []) _ sound
                  (omega (
                    arith,
                    length-append room.0 (h ∷ []),
                    evict_oldest-length s.max_hints s.total_data_size hs sound.some_hint
                        (length-hints_of s h.target_addr sound),
                  ))
                  (rw
                    (
                      add64_exact room.1 h.data_size (omega arith),
                      total-append (λ x. x.data_size) room.0 (h ∷ []),
                    )
                    (unfold total in omega arith))
                  (rw (add64_exact room.1 h.data_size (omega arith)) (omega arith))))
      ]

  delete_hint-IsSound :
      (s : Store Disk) (addr key : String) → IsSound s → IsSound (delete_hint os s addr key).0
  unfolding delete_hint
  delete_hint-IsSound s addr key sound =
      persist-IsSound _ addr
        (retain-IsSound (λ h. not (test (string_discrete h.key key))) s addr sound _ refl)

  update_hint-IsSound :
      (s : Store Disk) (h : Hint)
      → IsSound s
      → All (λ g. g.key ≡ h.key → g.data_size ≡ h.data_size) (hints_of s h.target_addr)
      → IsSound (update_hint os s h).0
  unfolding update_hint set_hints
  update_hint-IsSound s h sound same =
      elim (Option-cases (replace_hint h (hints_of s h.target_addr))) [
        | inl e ↦ rw (e, update_hint) sound
        | inr (hs, e) ↦
            let (size, len) = replace_hint-sizes h (hints_of s h.target_addr) hs same e in
            rw (e, update_hint)
              (persist-IsSound _ h.target_addr (
                set_hints-IsSound s h.target_addr hs s.total_data_size sound
                  (omega (arith, len, length-hints_of s h.target_addr sound)) (omega (arith, size))
                  sound.in_budget))
      ]

  purge_addr-IsSound :
      (now : ℕ) (s : Store Disk) (addr : String) → IsSound s → IsSound (purge_addr os now s addr)
  unfolding purge_addr set_hints
  purge_addr-IsSound now s addr sound =
      let keep = is_fresh s.max_age now in
      let hs = hints_of s addr in
      let left = retain keep s.total_data_size hs in
      elim (Bool-cases (length left.0 == length hs)) [
        | inl e ↦ rw e (size-IsSound s _ (unpurged keep s addr sound (eq_of_test _ _ e)) sound)
        | inr e ↦ rw e (persist-IsSound _ addr (retain-IsSound keep s addr sound _ refl))
      ]

  purge_loop-IsSound :
      (now : ℕ) (addrs : List String) (s : Store Disk)
      → IsSound s
      → IsSound (purge_loop os now addrs s)
  unfolding purge_loop
  purge_loop-IsSound now [] s sound = sound
  purge_loop-IsSound now (addr ∷ addrs) s sound =
      purge_loop-IsSound now addrs (purge_addr os now s addr) (purge_addr-IsSound now s addr sound)

  -- One call of a method of the store. A hint replaces one of its own size, as a failed delivery
  -- does where the hints of a target have distinct keys; a size added to the budget fits an int64.
  pub data Step : Store Disk → Store Disk → Type 0 where
    added :
        (s : Store Disk) (h : Hint)
        → s.max_data_size + h.data_size < 2 ^ 63
        → 0 < s.max_data_size
        → Step s (add_hint os s h).0
    deleted : (s : Store Disk) (addr key : String) → Step s (delete_hint os s addr key).0
    updated :
        (s : Store Disk) (h : Hint)
        → All (λ g. g.key ≡ h.key → g.data_size ≡ h.data_size) (hints_of s h.target_addr)
        → Step s (update_hint os s h).0
    purged : (s : Store Disk) (now : ℕ) → Step s (purge_expired os now s)

  -- any number of calls
  pub data Steps : Store Disk → Store Disk → Type 0 where
    done : (s : Store Disk) → Steps s s
    next : {s t u : Store Disk} → Steps s t → Step t u → Steps s u

  Step-IsSound : {s t : Store Disk} → Step s t → IsSound s → IsSound t
  unfolding purge_expired
  Step-IsSound (added s h small limited) sound = add_hint-IsSound s h sound small limited
  Step-IsSound (deleted s addr key) sound = delete_hint-IsSound s addr key sound
  Step-IsSound (updated s h same) sound = update_hint-IsSound s h sound same
  Step-IsSound (purged s now) sound = purge_loop-IsSound now (keys s.hints) s sound

  -- Over any sequence of AddHint, DeleteHint, UpdateHint and PurgeExpired, the total of a sound
  -- store stays the sum of the sizes of its hints and within the budget, and no target gets more
  -- hints than the cap; provided that the budget is set, a hint that is added and the budget
  -- together fit an int64, and an update keeps the size of the hints of its key.
  pub Steps-IsSound : {s t : Store Disk} → Steps s t → IsSound s → IsSound t
  Steps-IsSound (done s) sound = sound
  Steps-IsSound (next steps step) sound = Step-IsSound step (Steps-IsSound steps sound)
