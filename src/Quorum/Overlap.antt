-- ===== src/Quorum/Overlap.antt =====
-- W + R > N: a read after a confirmed write does not return a clock from before it.
use mathlib.Core.List.{Mem, mem-cons_self, mem-cons_of_mem, mem-map_of_mem}
use dfs_go.Common.{
  ◌+◌, ◌≤◌, ◌<◌, ◌≡◌, ◌≢◌, ◌⊎◌, sym, ap, ◌∙◌, String, List, [], ◌∷◌, ◌++◌, true, false, none, some,
  length, take, arith, Bool-cases, inl, inr, contains, contains-append, IsDistinct, length-append,
  length-le_of_contains, string_discrete, map, length-map, Option-cases,
}
use dfs_go.VClock.{VectorClock, compare, before, equal}
use dfs_go.VClock.Laws.{compare_of, compare_trans, Relates-of}
use dfs_go.Conflict.{Version, resolve}
use dfs_go.Conflict.Winner.{ClocksAgree, resolve_undominated}
use dfs_go.Quorum.{
  Config, WriteAck, ReadResponse, write, found_clock, version_of, resolve_read, at_timeout, read,
}
use dfs_go.Quorum.Count.{successes, finds, write_counts, read_uses}

-- some entry of both lists
common :
    (xs ys : List String)
    → ((a : String) × (contains string_discrete xs a ≡ true)
        × (contains string_discrete ys a ≡ true))
      ⊎ ((a : String)
          → contains string_discrete xs a ≡ true
          → contains string_discrete ys a ≡ false)
unfolding contains
common [] ys = inr (λ a h. absurd (ground arith))
common (x ∷ xs) ys = elim (Bool-cases (contains string_discrete ys x)) [
  | inl e ↦ inl (x, ground arith, e)
  | inr e ↦ elim (common xs ys) [
    | inl (a, m, n) ↦ inl (a, ground arith, n)
    | inr apart ↦ inr (λ a h. elim (string_discrete a x) [
      | yes f ↦ ap (contains string_discrete ys) f ∙ e
      | no f ↦ apart a (ground (arith, h))
    ])
  ]
]

append-IsDistinct :
    (xs ys : List String)
    → IsDistinct string_discrete xs
    → IsDistinct string_discrete ys
    → ((a : String) → contains string_discrete xs a ≡ true → contains string_discrete ys a ≡ false)
    → IsDistinct string_discrete (xs ++ ys)
unfolding contains
append-IsDistinct [] ys dx dy apart = dy
append-IsDistinct (x ∷ xs) ys dx dy apart = (
  contains-append string_discrete xs ys x ∙ rw dx.0 (apart x (ground arith)),
  append-IsDistinct xs ys dx.1 dy (λ a h. apart a (ground (arith, h))),
)

-- Two sets of the nodes of `all` that together are larger than it share a node.
pub overlap :
    (xs ys all : List String)
    → IsDistinct string_discrete xs
    → IsDistinct string_discrete ys
    → ((a : String) → contains string_discrete xs a ≡ true → contains string_discrete all a ≡ true)
    → ((a : String) → contains string_discrete ys a ≡ true → contains string_discrete all a ≡ true)
    → length all < length xs + length ys
    → (a : String) × (contains string_discrete xs a ≡ true) × (contains string_discrete ys a ≡ true)
overlap xs ys all dx dy hx hy more = elim (common xs ys) [
  | inl found ↦ found
  | inr apart ↦ absurd (
      omega (
        arith,
        length-append xs ys,
        length-le_of_contains string_discrete (xs ++ ys) all (append-IsDistinct xs ys dx dy apart)
            (λ a h. ground (arith, h, hx a, hy a, contains-append string_discrete xs ys a)),
      ))
]

-- the entry of a list that has a name
named :
    {A : Type 0} (name : A → String) (xs : List A) (a : String)
    → contains string_discrete (map name xs) a ≡ true
    → (x : A) × Mem x xs × (name x ≡ a)
unfolding contains
named name [] a h = absurd (ground arith)
named name (x ∷ xs) a h = elim (string_discrete a (name x)) [
  | yes e ↦ (x, mem-cons_self, sym e)
  | no e ↦ let (y, m, f) = named name xs a (ground (arith, h)) in (y, mem-cons_of_mem x m, f)
]

-- The clock is at least the written one.
abbrev pub Covers : VectorClock → VectorClock → Type 0
Covers clock written = (compare written clock ≡ before) ⊎ (compare written clock ≡ equal)

behind-Covers : (a b c : VectorClock) → compare a b ≡ before → Covers c b → compare a c ≡ before
behind-Covers a b c p (inl q) = compare_trans a b c p q
behind-Covers a b c p (inr q) =
    let h = Relates-of a b before p in
    let k = Relates-of b c equal q in
    compare_of a c before (λ n. omega (arith, h.0 n, k n), (h.1.0, omega (arith, h.1.1, k h.1.0)))

found-of :
    (responses : List ReadResponse) {clock : VectorClock}
    → at_timeout responses ≡ found_clock clock
    → (v : Version) × (resolve (map version_of responses) ≡ some v) × (v.clock ≡ clock)
unfolding at_timeout resolve_read
found-of [] h = absurd (ground (arith, h))
found-of (x ∷ xs) {clock} h = elim (Option-cases (resolve (map version_of (x ∷ xs)))) [
  | inl e ↦ absurd (ground (arith, h, e))
  | inr (v, e) ↦ (v, e, ground (arith, h, e))
]

-- A write was confirmed by W of the key's N targets, and a read collects R responses from
-- distinct targets, with R above 0 and W + R > N; the acks, too, are of distinct targets. If each
-- target that acknowledged the write answers with a clock that is at least the written one, and
-- the wall clocks agree with the causal order on the responses, the read does not return a clock
-- that comes before the written one.
pub read_sees_write :
    (cfg : Config) (key : String) (targets : List String) (acks : List WriteAck)
    (received : List ReadResponse) (written clock : VectorClock)
    → 0 < cfg.r
    → length targets < cfg.w + cfg.r
    → write cfg key acks ≡ none
    → IsDistinct string_discrete (map (λ a. a.node_addr) (successes acks))
    → ((a : String)
        → contains string_discrete (map (λ (x : WriteAck). x.node_addr) (successes acks)) a ≡ true
        → contains string_discrete targets a ≡ true)
    → cfg.r ≤ length (take cfg.r (finds received))
    → IsDistinct string_discrete (map (λ r. r.node_addr) (take cfg.r (finds received)))
    → ((a : String)
        → contains string_discrete
            (map (λ (x : ReadResponse). x.node_addr) (take cfg.r (finds received)))
            a
          ≡ true
        → contains string_discrete targets a ≡ true)
    → ((ack : WriteAck) (resp : ReadResponse)
        → Mem ack (successes acks)
        → Mem resp (take cfg.r (finds received))
        → ack.node_addr ≡ resp.node_addr
        → Covers resp.clock written)
    → ClocksAgree (map version_of (take cfg.r (finds received)))
    → read cfg received ≡ found_clock clock
    → compare clock written ≢ before
read_sees_write cfg key targets acks received written clock r0 more ok da ha enough dr hr covers
      agree got older =
    let used = take cfg.r (finds received) in
    let w_acks : cfg.w ≤ length (successes acks) = ground (arith, ok, write_counts cfg key acks) in
    let (a, in_acks, in_used) =
      overlap (map (λ (x : WriteAck). x.node_addr) (successes acks))
        (map (λ (x : ReadResponse). x.node_addr) used) targets da dr ha hr
        (omega (
          arith,
          length-map (λ (x : WriteAck). x.node_addr) (successes acks),
          length-map (λ (x : ReadResponse). x.node_addr) used,
        )) in
    let (ack, m_ack, e_ack) = named (λ (x : WriteAck). x.node_addr) (successes acks) a in_acks in
    let (resp, m_resp, e_resp) = named (λ (x : ReadResponse). x.node_addr) used a in_used in
    let (v, won, e_v) = found-of used (sym (read_uses cfg received r0) ∙ got) in
    resolve_undominated (map version_of used) agree won (version_of resp)
      (mem-map_of_mem version_of m_resp)
      (unfold version_of in
        behind-Covers v.clock written resp.clock (ap (λ c. compare c written) e_v ∙ older)
          (covers ack resp m_ack m_resp (e_ack ∙ sym e_resp)))
