-- ===== src/Transfer/Sound.antt =====
-- Every transfer has a context of its own, so that cancelling one leaves the others running.
use mathlib.Core.List.{lookup}
use dfs_go.Common.{
  ◌+◌, ◌<◌, ◌≡◌, refl, sym, ◌∙◌, ap, String, none, some, ite, string_discrete, arith, Option-cases,
  inl, inr, if_pos, if_neg, ◌⊎◌,
}
use dfs_go.Common.Assoc.{lookup-insert}
use dfs_go.Transfer.{Tracked, Manager, new_manager, find, modify}

module _ {Speed : Type 0} where
  pub record IsSound (m : Manager Speed) : Type 0 where
    -- the contexts in use were handed out
    pub old : (q : String) (t : Tracked Speed) → find m q ≡ some t → t.context < m.contexts
    pub own :
        (p q : String) (t u : Tracked Speed)
        → find m p ≡ some t
        → find m q ≡ some u
        → t.context ≡ u.context
        → p ≡ q

  pub new_manager-IsSound : IsSound new_manager
  unfolding find lookup new_manager
  new_manager-IsSound = record {
    old = λ q t e. absurd (ground (arith, e));
    own = λ p q t u e f c. absurd (ground (arith, e));
  }

  -- what an entry after a change was before it
  pub Kept : Manager Speed → Manager Speed → Type 0
  Kept m m' =
      (q : String) (t : Tracked Speed)
      → find m' q ≡ some t
      → (u : Tracked Speed) × (find m q ≡ some u) × (t.context ≡ u.context)

  pub Kept-IsSound :
      (m m' : Manager Speed) → Kept m m' → m'.contexts ≡ m.contexts → IsSound m → IsSound m'
  unfolding Kept
  Kept-IsSound m m' kept same h = record {
    old = λ q t e. let (u, f, c) = kept q t e in omega (arith, h.old q u f, c, same);
    own = λ p q t u e f c.
        let (v, g, d) = kept p t e in
        let (w, k, b) = kept q u f in h.own p q v w g k (sym d ∙ c ∙ b);
  }

  pub find-modify :
      (m : Manager Speed) (id q : String) (change : Tracked Speed → Tracked Speed)
      (u : Tracked Speed)
      → find m id ≡ some u
      → find (modify m id change) q ≡ ite (string_discrete id q) (some (change u)) (find m q)
  unfolding find modify
  find-modify m id q change u e =
      rw (e, modify) (lookup-insert string_discrete id q (change u) m.transfers)

  pub modify_absent :
      (m : Manager Speed) (id : String) (change : Tracked Speed → Tracked Speed)
      → find m id ≡ none
      → modify m id change ≡ m
  unfolding modify
  modify_absent m id change e = rw (e, modify) refl

  some-injective : (t u : Tracked Speed) → some t ≡ some u → t ≡ u
  some-injective t u e = cc

  -- an entry of a table in which one entry was written
  written-Kept :
      (m m' : Manager Speed) (id : String) (u v : Tracked Speed)
      → find m id ≡ some u
      → ((q : String) → find m' q ≡ ite (string_discrete id q) (some v) (find m q))
      → v.context ≡ u.context
      → Kept m m'
  unfolding Kept
  written-Kept m m' id u v there at same q t e = elim (string_discrete id q) [
    | yes f ↦
        let is : v ≡ t =
          some-injective v t (sym (if_pos (string_discrete id q) f _ _) ∙ sym (at q) ∙ e) in
        (u, sym (ap (find m) f) ∙ there, sym (ap (λ (x : Tracked Speed). x.context) is) ∙ same)
    | no n ↦ (t, sym (if_neg (string_discrete id q) n _ _) ∙ sym (at q) ∙ e, refl)
  ]

  contexts-modify :
      (m : Manager Speed) (id : String) (change : Tracked Speed → Tracked Speed)
      → (modify m id change).contexts ≡ m.contexts
  contexts-modify m id change = elim (Option-cases (find m id)) [
    | inl e ↦ unfold modify in rw (e, modify) refl
    | inr (u, e) ↦ unfold modify in rw (e, modify) refl
  ]

  pub modify-IsSound :
      (m : Manager Speed) (id : String) (change : Tracked Speed → Tracked Speed)
      → ((t : Tracked Speed) → (change t).context ≡ t.context)
      → IsSound m
      → IsSound (modify m id change)
  modify-IsSound m id change same h = elim (Option-cases (find m id)) [
    | inl e ↦ rw (modify_absent m id change e) h
    | inr (u, e) ↦
        Kept-IsSound m (modify m id change)
          (written-Kept m (modify m id change) id u (change u) e
            (λ q. find-modify m id q change u e) (same u))
          (contexts-modify m id change) h
  ]

  -- a transfer with a fresh context
  pub fresh-IsSound :
      (m m' : Manager Speed) (id : String) (v : Tracked Speed)
      → ((q : String) → find m' q ≡ ite (string_discrete id q) (some v) (find m q))
      → v.context ≡ m.contexts
      → m'.contexts ≡ m.contexts + 1
      → IsSound m
      → IsSound m'
  fresh-IsSound m m' id v at fresh grown h = record {
    old = λ q t e. elim (here_or q t e) [
      | inl (f, c) ↦ omega (arith, c, grown)
      | inr f ↦ omega (arith, h.old q t f, grown)
    ];
    own = λ p q t u e f c. elim (here_or p t e) [
      | inl (x, d) ↦ elim (here_or q u f) [
        | inl (y, b) ↦ sym x ∙ y
        | inr y ↦ absurd (omega (arith, h.old q u y, c, d))
      ]
      | inr x ↦ elim (here_or q u f) [
        | inl (y, b) ↦ absurd (omega (arith, h.old p t x, c, b))
        | inr y ↦ h.own p q t u x y c
      ]
    ];
  }
    where
      here_or :
          (q : String) (t : Tracked Speed)
          → find m' q ≡ some t
          → ((id ≡ q) × (t.context ≡ m.contexts)) ⊎ (find m q ≡ some t)
      here_or q t e = elim (string_discrete id q) [
        | yes f ↦
            let is : v ≡ t =
              some-injective v t (sym (if_pos (string_discrete id q) f _ _) ∙ sym (at q) ∙ e) in
            inl (f, sym (ap (λ (x : Tracked Speed). x.context) is) ∙ fresh)
        | no n ↦ inr (sym (if_neg (string_discrete id q) n _ _) ∙ sym (at q) ∙ e)
      ]

  -- the table without one entry
  pub dropped-IsSound :
      (m m' : Manager Speed) (id : String)
      → ((q : String) → find m' q ≡ ite (string_discrete id q) none (find m q))
      → m'.contexts ≡ m.contexts
      → IsSound m
      → IsSound m'
  dropped-IsSound m m' id at same h =
      Kept-IsSound m m'
        (unfold Kept in
          λ q t e. elim (string_discrete id q) [
            | yes f ↦
                absurd (none≢some t (sym (if_pos (string_discrete id q) f _ _) ∙ sym (at q) ∙ e))
            | no n ↦ (t, sym (if_neg (string_discrete id q) n _ _) ∙ sym (at q) ∙ e, refl)
          ])
        same h
    where
      none≢some : (t : Tracked Speed) → ¬ (none ≡ some t)
      none≢some t e = cc
