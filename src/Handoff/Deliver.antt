-- ===== src/Handoff/Deliver.antt =====
-- What `deliverPending` leaves in the store.
use mathlib.Core.List.{append_assoc}
use dfs_go.Common.{
  ℕ, ◌+◌, ◌≡◌, refl, sym, ap, ◌∙◌, String, List, [], ◌∷◌, ◌++◌, Bool, true, false, Option, none,
  some, leb, if◌then◌else◌, select, string_discrete, arith, All, Bool-cases, inl, inr, not, test,
  contains, IsDistinct, map, ite, select-append, if_pos, if_neg,
}
use dfs_go.Common.{Option-cases, inl, inr}
use dfs_go.Common.Assoc.{lookup-insert}
use dfs_go.Handoff.{
  Hint, Store, Os, retain, hints_of, set_hints, get_hints, replace_hint, persist, delete_hint,
  update_hint, settle, deliver_loop, deliver_pending, max_delivery_attempts,
}
use dfs_go.Handoff.Sizes.{retain-select}

abbrev pub hint_keys : List Hint → List String
hint_keys hs = map (λ h. h.key) hs

abbrev other : String → Hint → Bool
other key h = not (test (string_discrete h.key key))

-- What is left of a hint that was handed to `deliver` once: nothing if it was delivered or has used
-- up its attempts, else the hint with one attempt more.
pub settled : Bool → Hint → List Hint
settled true h = []
settled false h =
    if leb max_delivery_attempts (h.attempts + 1)
    then []
    else record h { attempts = h.attempts + 1 } ∷ []

pub outcome : (Hint → Bool) → List Hint → List Hint
outcome deliver [] = []
outcome deliver (h ∷ hs) = settled (deliver h) h ++ outcome deliver hs

used_up : (h : Hint) → leb max_delivery_attempts (h.attempts + 1) ≡ true → settled false h ≡ []
unfolding settled
used_up h a = rw a refl

tries_again :
    (h : Hint)
    → leb max_delivery_attempts (h.attempts + 1) ≡ false
    → settled false h ≡ record h { attempts = h.attempts + 1 } ∷ []
unfolding settled
tries_again h a = rw a refl

settled_fresh :
    (delivered : Bool) (h : Hint) (before : List Hint) (k : String)
    → contains string_discrete (hint_keys before) k ≡ false
    → ¬ (k ≡ h.key)
    → contains string_discrete (hint_keys (before ++ settled delivered h)) k ≡ false
unfolding settled contains
settled_fresh true h [] k e n = refl
settled_fresh false h [] k e n = elim (Bool-cases (leb max_delivery_attempts (h.attempts + 1))) [
  | inl a ↦ rw a refl
  | inr a ↦ rw a (if_neg (string_discrete k h.key) n _ _)
]
settled_fresh delivered h (b ∷ before) k e n = ground (arith, e, settled_fresh delivered h before k)

settled_fresh-All :
    (delivered : Bool) (h : Hint) (before hs : List Hint)
    → All (λ g. contains string_discrete (hint_keys before) g.key ≡ false) hs
    → contains string_discrete (hint_keys hs) h.key ≡ false
    → All
        (λ g. contains string_discrete (hint_keys (before ++ settled delivered h)) g.key ≡ false)
        hs
unfolding contains
settled_fresh-All delivered h before [] a c = tt
settled_fresh-All delivered h before (g ∷ hs) a c = (
  settled_fresh delivered h before g.key a.0 (λ e. absurd (ground (arith, c, sym e))),
  settled_fresh-All delivered h before hs a.1 (ground (arith, c)),
)

select-other :
    (key : String) (hs : List Hint)
    → contains string_discrete (hint_keys hs) key ≡ false
    → select (other key) hs ≡ hs
unfolding contains select
select-other key [] e = refl
select-other key (h ∷ hs) e = ground (arith, select-other key hs, ap (λ k. k) {x = h.key} {y = key})

-- one hint, between those already settled and those to come
delete_here :
    (before : List Hint) (h : Hint) (hs : List Hint)
    → contains string_discrete (hint_keys before) h.key ≡ false
    → contains string_discrete (hint_keys hs) h.key ≡ false
    → select (other h.key) (before ++ h ∷ hs) ≡ before ++ hs
unfolding select
delete_here before h hs eb eh =
    select-append (other h.key) before (h ∷ hs)
    ∙ ground (arith, select-other h.key before eb, select-other h.key hs eh)

replace_here :
    (before : List Hint) (h g : Hint) (hs : List Hint)
    → g.key ≡ h.key
    → contains string_discrete (hint_keys before) h.key ≡ false
    → replace_hint g (before ++ h ∷ hs) ≡ some (before ++ g ∷ hs)
unfolding replace_hint contains
replace_here [] h g hs k eb = ground (arith, k)
replace_here (b ∷ before) h g hs k eb = ground (arith, k, replace_here before h g hs k)

module _ {Disk Bytes : Type 0} (os : Os Disk Bytes) where
  hints_of-persist :
      (s : Store Disk) (addr q : String) → hints_of (persist os s addr).0 q ≡ hints_of s q
  unfolding persist hints_of
  hints_of-persist s addr q = go (hints_of s addr) refl
    where
      go : (hs : List Hint) → hints_of s addr ≡ hs → hints_of (persist os s addr).0 q ≡ hints_of s q
      go [] e = rw (e, persist) refl
      go (x ∷ hs) e = elim (Option-cases (os.marshal (x ∷ hs))) [
        | inl m ↦ rw (e, persist, m) refl
        | inr (text, m) ↦ rw (e, persist, m) refl
      ]

  hints_of-sized :
      (s : Store Disk) (size : ℕ) (q : String)
      → hints_of (record s { total_data_size = size }) q ≡ hints_of s q
  unfolding hints_of
  hints_of-sized s size q = refl

  hints_of-set :
      (s : Store Disk) (addr q : String) (hs : List Hint)
      → hints_of (set_hints s addr hs) q ≡ ite (string_discrete addr q) hs (hints_of s q)
  unfolding hints_of set_hints
  hints_of-set s addr q hs = ground (arith, lookup-insert string_discrete addr q hs s.hints)

  -- DeleteHint drops the hints of its key, of its target.
  pub hints_of-delete_hint :
      (s : Store Disk) (addr key q : String)
      → hints_of (delete_hint os s addr key).0 q
        ≡ ite (string_discrete addr q) (select (other key) (hints_of s addr)) (hints_of s q)
  unfolding delete_hint
  hints_of-delete_hint s addr key q =
      let left = retain (other key) s.total_data_size (hints_of s addr) in
      hints_of-persist _ addr q
      ∙ hints_of-sized (set_hints s addr left.0) left.1 q
      ∙ hints_of-set s addr q left.0
      ∙ ap (λ hs. ite (string_discrete addr q) hs (hints_of s q))
          (retain-select (other key) s.total_data_size (hints_of s addr))

  hints_of-update_hint :
      (s : Store Disk) (h : Hint) (q : String) (hs : List Hint)
      → replace_hint h (hints_of s h.target_addr) ≡ some hs
      → hints_of (update_hint os s h).0 q ≡ ite (string_discrete h.target_addr q) hs (hints_of s q)
  unfolding update_hint hints_of
  hints_of-update_hint s h q hs e =
      rw (e, update_hint)
        (hints_of-persist (set_hints s h.target_addr hs) h.target_addr q
          ∙ hints_of-set s h.target_addr q hs)

  deleted :
      (s : Store Disk) (addr : String) (before : List Hint) (h : Hint) (hs : List Hint)
      → hints_of s addr ≡ before ++ h ∷ hs
      → contains string_discrete (hint_keys before) h.key ≡ false
      → contains string_discrete (hint_keys hs) h.key ≡ false
      → hints_of (delete_hint os s addr h.key).0 addr ≡ before ++ hs
  deleted s addr before h hs e eb eh =
      hints_of-delete_hint s addr h.key addr
      ∙ if_pos (string_discrete addr addr) refl _ _
      ∙ ap (select (other h.key)) e
      ∙ delete_here before h hs eb eh

  -- the hint that was handed to `deliver`, among those settled before and those to come
  settle-hints :
      (delivered : Bool) (addr : String) (s : Store Disk) (before : List Hint) (h : Hint)
      (hs : List Hint)
      → hints_of s addr ≡ before ++ h ∷ hs
      → h.target_addr ≡ addr
      → contains string_discrete (hint_keys before) h.key ≡ false
      → contains string_discrete (hint_keys hs) h.key ≡ false
      → hints_of (settle os delivered addr h s) addr ≡ before ++ (settled delivered h ++ hs)
  unfolding settle
  settle-hints true addr s before h hs e t eb eh =
      unfold settled in deleted s addr before h hs e eb eh
  settle-hints false addr s before h hs e t eb eh =
      elim (Bool-cases (leb max_delivery_attempts (h.attempts + 1))) [
        | inl a ↦ rw (used_up h a, a) (deleted s addr before h hs e eb eh)
        | inr a ↦
            let g : Hint = record h { attempts = h.attempts + 1 } in
            rw (tries_again h a, a)
              (hints_of-update_hint s g addr (before ++ g ∷ hs) (
                  ap (λ k. replace_hint g (hints_of s k)) t
                  ∙ ap (replace_hint g) e
                  ∙ replace_here before h g hs refl eb)
                ∙ if_pos (string_discrete h.target_addr addr) t _ _)
      ]

  hints_of-settle-elsewhere :
      (delivered : Bool) (addr q : String) (s : Store Disk) (h : Hint)
      → h.target_addr ≡ addr
      → ¬ (addr ≡ q)
      → hints_of (settle os delivered addr h s) q ≡ hints_of s q
  unfolding settle update_hint
  hints_of-settle-elsewhere delivered addr q s h t n = elim (Bool-cases delivered) [
    | inl a ↦ rw a (dropped)
    | inr a ↦ elim (Bool-cases (leb max_delivery_attempts (h.attempts + 1))) [
      | inl b ↦ rw (a, b) (dropped)
      | inr b ↦ rw (a, b) (updated (replace_hint g (hints_of s h.target_addr)) refl)
    ]
  ]
    where
      g : Hint
      g = record h { attempts = h.attempts + 1 }

      dropped : hints_of (delete_hint os s addr h.key).0 q ≡ hints_of s q
      dropped = hints_of-delete_hint s addr h.key q ∙ if_neg (string_discrete addr q) n _ _

      updated :
          (o : Option (List Hint))
          → replace_hint g (hints_of s h.target_addr) ≡ o
          → hints_of (update_hint os s g).0 q ≡ hints_of s q
      updated none e = rw (e, update_hint) refl
      updated (some gs) e =
          hints_of-update_hint s g q gs e
          ∙ if_neg (string_discrete h.target_addr q) (λ f. n (sym t ∙ f)) _ _

  deliver_loop-hints :
      (deliver : Hint → Bool) (addr : String) (hs before : List Hint) (s : Store Disk)
      → hints_of s addr ≡ before ++ hs
      → All (λ h. h.target_addr ≡ addr) hs
      → IsDistinct string_discrete (hint_keys hs)
      → All (λ h. contains string_discrete (hint_keys before) h.key ≡ false) hs
      → hints_of (deliver_loop os deliver addr hs s) addr ≡ before ++ outcome deliver hs
  unfolding deliver_loop outcome
  deliver_loop-hints deliver addr [] before s e t d a = e
  deliver_loop-hints deliver addr (h ∷ hs) before s e t d a =
      deliver_loop-hints deliver addr hs (before ++ settled (deliver h) h)
        (settle os (deliver h) addr h s)
        (settle-hints (deliver h) addr s before h hs e t.0 a.0 d.0
          ∙ sym (append_assoc before (settled (deliver h) h) hs))
        t.1 d.1 (settled_fresh-All (deliver h) h before hs a.1 d.0)
      ∙ append_assoc before (settled (deliver h) h) (outcome deliver hs)

  deliver_loop-elsewhere :
      (deliver : Hint → Bool) (addr q : String) (hs : List Hint) (s : Store Disk)
      → All (λ h. h.target_addr ≡ addr) hs
      → ¬ (addr ≡ q)
      → hints_of (deliver_loop os deliver addr hs s) q ≡ hints_of s q
  unfolding deliver_loop
  deliver_loop-elsewhere deliver addr q [] s t n = refl
  deliver_loop-elsewhere deliver addr q (h ∷ hs) s t n =
      deliver_loop-elsewhere deliver addr q hs (settle os (deliver h) addr h s) t.1 n
      ∙ hints_of-settle-elsewhere (deliver h) addr q s h t.0 n

  -- Where the pending hints of a target are filed under their target and have distinct keys, a
  -- delivery leaves of them exactly those that failed and have attempts left, in their order and
  -- with one attempt more, and touches no other target's hints.
  pub deliver_pending-outcome :
      (deliver : Hint → Bool) (addr : String) (s : Store Disk)
      → All (λ h. h.target_addr ≡ addr) (hints_of s addr)
      → IsDistinct string_discrete (hint_keys (hints_of s addr))
      → (hints_of (deliver_pending os deliver addr s) addr ≡ outcome deliver (hints_of s addr))
        × ((q : String)
            → ¬ (addr ≡ q)
            → hints_of (deliver_pending os deliver addr s) q ≡ hints_of s q)
  unfolding deliver_pending get_hints
  deliver_pending-outcome deliver addr s t d = (
    deliver_loop-hints deliver addr (hints_of s addr) [] s refl t d (nothing (hints_of s addr)),
    λ q n. deliver_loop-elsewhere deliver addr q (hints_of s addr) s t n,
  )
    where
      nothing :
          (hs : List Hint) → All (λ h. contains string_discrete (hint_keys []) h.key ≡ false) hs
      nothing [] = tt
      nothing (h ∷ hs) = (unfold contains in refl, nothing hs)
