-- ===== src/Failure/Window.antt =====
-- The ring buffer of Cluster/failure/detector.go holds the latest intervals in order.
use dfs_go.Common.{ℕ, suc, ◌+◌, ◌%◌, ◌<◌, ◌≤◌, ◌≡◌, refl, sym, ap, ◌∙◌, arith}
use dfs_go.Common.{Option, some, List, [], ◌∷◌, ◌++◌, ltb, if◌then◌else◌, length}
use dfs_go.Common.{length-append, inl, inr, ◌⊎◌}
use dfs_go.Failure.{
  PeerWindow, new_peer_window, set, zeros, interval_ms, push_interval, arrive, record_arrival,
}
use dfs_go.Failure.Ring.{
  contents_of, latest, length-set, length-zeros, latest_at, latest_few, latest-snoc, push_filling,
  push_full, length-contents_of, next_head,
}
use mathlib.Core.Option
use mathlib.Core.List.{append_assoc, append-nil}
use native.Mathlib.Nat.{mod-lt}

-- The intervals held, oldest first.
abbrev pub contents : PeerWindow → List ℕ
contents w = contents_of w.intervals w.head w.count

abbrev pub IsValid : PeerWindow → Type 0
IsValid w =
    (length w.intervals ≡ w.capacity)
    × (w.head < w.capacity)
    × ((w.count ≡ w.capacity) ⊎ ((w.count < w.capacity) × (w.head ≡ w.count)))

-- the count after a push
next_count : ℕ → ℕ → ℕ
next_count count capacity = if ltb count capacity then count + 1 else count

next_count_full : (count capacity : ℕ) → count ≡ capacity → next_count count capacity ≡ capacity
unfolding next_count
next_count_full count capacity e = ground arith

next_count_few : (count capacity : ℕ) → count < capacity → next_count count capacity ≡ suc count
unfolding next_count
next_count_few count capacity h = ground arith

-- After a push the ring is valid and holds the latest `capacity` of what it held and the new one.
pushed : ℕ → ℕ → PeerWindow → PeerWindow
pushed x now w = record w {
  intervals = set w.intervals w.head x;
  head = (w.head + 1) % w.capacity;
  count = next_count w.count w.capacity;
  last_arrival = some now;
}

push_pushed :
    (x now : ℕ) (w : PeerWindow) → IsValid w → push_interval x now w ≡ some (pushed x now w)
unfolding push_interval pushed next_count
push_pushed x now w v = ground (arith, v.0, v.1)

module _ (xs : List ℕ) (head count capacity x : ℕ) (size : length xs ≡ capacity)
    (lt : head < capacity) where
  IsFilled : ℕ → ℕ → Type 0
  IsFilled h c = (c ≡ capacity) ⊎ ((c < capacity) × (h ≡ c))

  next_IsFilled : IsFilled head count → IsFilled ((head + 1) % capacity) (next_count count capacity)
  unfolding IsFilled
  next_IsFilled (inl full) = inl (next_count_full count capacity full)
  next_IsFilled (inr (few, at)) = elim (next_head xs head capacity x size lt) [
    | inl (e, h) ↦ let n = next_count_few count capacity few in inr (omega arith, omega arith)
    | inr (e, h) ↦ inl (omega (arith, next_count_few count capacity few))
  ]

  next_contents :
      IsFilled head count
      → contents_of (set xs head x) ((head + 1) % capacity) (next_count count capacity)
        ≡ latest capacity (contents_of xs head count ++ (x ∷ []))
  unfolding IsFilled
  next_contents (inl full) =
      rw (next_count_full count capacity full, full) (push_full xs head capacity x size lt)
      ∙ sym (
          latest_at capacity 1 (contents_of xs head count ++ (x ∷ [])) (
            omega (
              arith,
              length-append (contents_of xs head count) (x ∷ []),
              length-contents_of xs head count (omega arith) (omega arith),
            )))
  next_contents (inr (few, at)) =
      rw (next_count_few count capacity few, ← at) (push_filling xs head capacity x size lt)
      ∙ sym (
          latest_few capacity (contents_of xs head count ++ (x ∷ [])) (
            omega (
              arith,
              length-append (contents_of xs head count) (x ∷ []),
              length-contents_of xs head count (omega arith) (omega arith),
            )))

pushed-IsValid : (x now : ℕ) (w : PeerWindow) → IsValid w → IsValid (pushed x now w)
unfolding pushed IsFilled
pushed-IsValid x now w (size, lt, fill) = (
  length-set w.intervals w.head x ∙ size,
  mod-lt (w.head + 1) (omega arith),
  next_IsFilled w.intervals w.head w.count w.capacity x size lt fill,
)

pushed-contents :
    (x now : ℕ) (w : PeerWindow)
    → IsValid w
    → contents (pushed x now w) ≡ latest w.capacity (contents w ++ (x ∷ []))
unfolding pushed IsFilled
pushed-contents x now w (size, lt, fill) =
    next_contents w.intervals w.head w.count w.capacity x size lt fill

-- `record` called on each arrival in turn
unfoldable pub record_all : List ℕ → PeerWindow → Option PeerWindow
record_all [] w = some w
record_all (now ∷ ts) w = Option.bind (record_arrival w now) (λ w'. record_all ts w')

-- the intervals between successive arrivals
unfoldable pub gaps : ℕ → List ℕ → List ℕ
gaps last [] = []
gaps last (now ∷ ts) = interval_ms last now ∷ gaps now ts

recorded :
    (now last : ℕ) (w : PeerWindow)
    → IsValid w
    → w.last_arrival ≡ some last
    → record_arrival w now ≡ some (pushed (interval_ms last now) now w)
unfolding record_arrival arrive
recorded now last w v at =
    ap (λ o. arrive o now w) at ∙ (push_pushed (interval_ms last now) now w v)

record_all_step :
    (now : ℕ) (ts : List ℕ) (w w' : PeerWindow)
    → record_arrival w now ≡ some w'
    → record_all (now ∷ ts) w ≡ record_all ts w'
unfolding record_all Option.bind
record_all_step now ts w w' e = ap (λ o. Option.bind o (λ w2. record_all ts w2)) e

record_all-Recent :
    (ts : List ℕ) (last : ℕ) (seen : List ℕ) (w : PeerWindow)
    → IsValid w
    → w.last_arrival ≡ some last
    → contents w ≡ latest w.capacity seen
    → (w' : PeerWindow) × (record_all ts w ≡ some w')
      × IsValid w'
      × (w'.capacity ≡ w.capacity)
      × (contents w' ≡ latest w.capacity (seen ++ gaps last ts))
unfolding record_all gaps
record_all-Recent [] last seen w v at held = (w, refl, v, refl, rw append-nil held)
record_all-Recent (now ∷ ts) last seen w v at held =
    let (w', e, v', size, h) = record_all-Recent ts now (seen ++ (gap ∷ [])) next v2 at2 held2 in
    (
      w',
      record_all_step now ts w next (recorded now last w v at) ∙ e,
      v',
      size ∙ (unfold pushed in refl),
      h ∙ (unfold pushed in ap (latest w.capacity) (append_assoc seen (gap ∷ []) (gaps now ts))),
    )
  where
    gap : ℕ
    gap = interval_ms last now

    next : PeerWindow
    next = pushed gap now w

    v2 : IsValid next
    v2 = pushed-IsValid gap now w v

    at2 : next.last_arrival ≡ some now
    at2 = unfold pushed in refl

    held2 : contents next ≡ latest next.capacity (seen ++ (gap ∷ []))
    held2 =
        pushed-contents gap now w v
        ∙ ap (λ q. latest w.capacity (q ++ (gap ∷ []))) held
        ∙ latest-snoc w.capacity gap seen
        ∙ (unfold pushed in refl)

-- From a new window of positive size the arrivals of a peer are all recorded without an index out
-- of range, and the ring then holds, oldest first, the intervals between the arrivals if they are
-- at most as many as its size, and otherwise the latest of them, as many as its size.
pub record_all-latest :
    (size t0 : ℕ) (ts : List ℕ)
    → 0 < size
    → (w : PeerWindow) × (record_all (t0 ∷ ts) (new_peer_window size) ≡ some w)
      × (contents w ≡ latest size (gaps t0 ts))
      × (w.count ≤ size)
      × (length w.intervals ≡ size)
unfolding record_all record_arrival arrive Option.bind new_peer_window
record_all-latest size t0 ts pos =
    let (w, e, v, c, h) =
      record_all-Recent ts t0 [] start (length-zeros size, pos, inr (pos, refl)) refl (drop_nil) in
    (w, e, h, bound w v c, v.0 ∙ c)
  where
    start : PeerWindow
    start = record {
      intervals = zeros size;
      head = 0;
      count = 0;
      last_arrival = some t0;
      capacity = size;
    }

    drop_nil : contents start ≡ latest size []
    drop_nil = sym (latest_few size [] (omega arith))

    bound : (w : PeerWindow) → IsValid w → w.capacity ≡ size → w.count ≤ size
    bound w (_, _, inl full) c = omega arith
    bound w (_, _, inr (few, at)) c = omega arith
