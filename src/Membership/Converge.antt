-- ===== src/Membership/Converge.antt =====
-- Tables that take the same updates agree, in whatever order the network delivers them.
use mathlib.Core.List.{Mem, Perm, Permᴰ, mem-cons_self, mem-cons_of_mem}
use mathlib.Core.List.Permᴰ
use mathlib.Core.Logic.{∥∥₁_elim}
use mathlib.Core.Path.{ap₂}
use dfs_go.Common.{
  ℕ, ◌≡◌, refl, sym, ◌∙◌, String, List, [], ◌∷◌, none, some, ite, string_discrete, arith, ap,
  ℕ_discrete,
}
use dfs_go.Membership.{NodeState, ClusterState, update_state}
use dfs_go.Membership.Update.{View, glance, view, absorb, update_state-Updates}

-- An update that travels through the cluster.
pub record Update : Type 0 where
  pub addr : String
  pub state : NodeState
  pub generation : ℕ

-- A node takes the updates as they arrive, all at the time `now`.
pub apply_updates : ClusterState → List Update → ℕ → ClusterState
apply_updates cs [] now = cs
apply_updates cs (u ∷ us) now =
    apply_updates (update_state cs u.addr u.state u.generation now).0 us now

-- A generation of a node stands for one state: only the node itself takes a new one.
abbrev pub OwnsGenerations : List Update → Type 0
OwnsGenerations us =
    (u w : Update)
    → Mem u us
    → Mem w us
    → u.addr ≡ w.addr
    → u.generation ≡ w.generation
    → u.state ≡ w.state

-- one update, as one entry sees it
abbrev take_one : String → View → Update → View
take_one q v u = ite (string_discrete u.addr q) (absorb v u.state u.generation) v

fold : String → View → List Update → View
fold q v [] = v
fold q v (u ∷ us) = fold q (take_one q v u) us

view-update :
    (cs : ClusterState) (u : Update) (now : ℕ) (q : String)
    → view (update_state cs u.addr u.state u.generation now).0 q ≡ take_one q (view cs q) u
view-update cs u now q =
    let h = update_state-Updates cs u.addr u.state u.generation now in
    elim (string_discrete u.addr q) [
      | yes e ↦ ground (
        arith,
        h.entry,
        ap (view (update_state cs u.addr u.state u.generation now).0) e,
        ap (view cs) e,
      )
      | no e ↦ ground (arith, ap glance (h.others q e))
    ]

view-apply_updates :
    (cs : ClusterState) (us : List Update) (now : ℕ) (q : String)
    → view (apply_updates cs us now) q ≡ fold q (view cs q) us
unfolding apply_updates fold
view-apply_updates cs [] now q = refl
view-apply_updates cs (u ∷ us) now q =
    view-apply_updates (update_state cs u.addr u.state u.generation now).0 us now q
    ∙ ap (λ v. fold q v us) (view-update cs u now q)

absorb_comm :
    (v : View) (s t : NodeState) (g h : ℕ)
    → (g ≡ h → s ≡ t)
    → absorb (absorb v s g) t h ≡ absorb (absorb v t h) s g
absorb_comm none s t g h same = ground (arith, same)
absorb_comm (some (o, k)) s t g h same = ground (arith, same)

take_comm :
    (q : String) (v : View) (u w : Update)
    → (u.addr ≡ w.addr → u.generation ≡ w.generation → u.state ≡ w.state)
    → take_one q (take_one q v u) w ≡ take_one q (take_one q v w) u
take_comm q v u w same = elim (string_discrete u.addr q) [
  | yes e ↦ elim (string_discrete w.addr q) [
    | yes f ↦
        ground (arith, absorb_comm v u.state w.state u.generation w.generation (same (e ∙ sym f)))
    | no f ↦ ground arith
  ]
  | no e ↦ ground arith
]

fold-Permᴰ :
    (q : String) {us ws : List Update}
    → Permᴰ us ws
    → OwnsGenerations us
    → (v : View) → fold q v us ≡ fold q v ws
unfolding fold
fold-Permᴰ q Permᴰ.nil own v = refl
fold-Permᴰ q (Permᴰ.cons {a = a} {b = b} {l₁ = xs} {l₂ = ys} e p) own v =
    fold-Permᴰ q p (λ u w m n. own u w (mem-cons_of_mem a m) (mem-cons_of_mem a n)) (take_one q v a)
    ∙ ap (λ x. fold q (take_one q v x) ys) e
fold-Permᴰ q (Permᴰ.swap {a = a} {b = b} {l = l} e f) own v =
    ap (λ x. fold q x l)
      (take_comm q v a b (own a b mem-cons_self (mem-cons_of_mem a mem-cons_self)))
    ∙ ap₂ (λ x y. fold q (take_one q (take_one q v x) y) l) f e
fold-Permᴰ q (Permᴰ.trans p r) own v =
    fold-Permᴰ q p own v
    ∙ fold-Permᴰ q r (λ u w m n. own u w (Permᴰ.mem (Permᴰ.symm p) m) (Permᴰ.mem (Permᴰ.symm p) n))
        v

View-set : IsSet View
View-set = hlevel ℕ_discrete

-- Two tables that agree on a node still agree on it after the same updates in any two orders,
-- provided that every generation of a node stands for one state.
pub updates_converge :
    (cs cs' : ClusterState) (us ws : List Update) (now now' : ℕ) (q : String)
    → Perm us ws
    → OwnsGenerations us
    → view cs q ≡ view cs' q
    → view (apply_updates cs us now) q ≡ view (apply_updates cs' ws now') q
updates_converge cs cs' us ws now now' q p own e =
    view-apply_updates cs us now q
    ∙ ∥∥₁_elim p (View-set _ _) (λ d. fold-Permᴰ q d own (view cs q))
    ∙ ap (λ v. fold q v ws) e
    ∙ sym (view-apply_updates cs' ws now' q)
