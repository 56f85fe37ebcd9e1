-- ===== src/Rebalance/Sends.antt =====
-- Which copies the rebalancer sends.
use mathlib.Core.Path.{subst}
use mathlib.Core.List.{append-nil, Mem, mem-cons_self, mem-append_left, mem-append_right}
use dfs_go.Common.{
  ℕ, ◌≡◌, ◌≤◌, refl, String, List, [], ◌∷◌, ◌++◌, Bool, true, false, Option, some, contains,
  string_discrete, All, All-append, arith, Bool-cases, Option-cases, inl, inr,
}
use dfs_go.HashRing.{size}
use dfs_go.HashRing.Valid.{IsValid}
use dfs_go.HashRing.Nodes.{get_nodes_correct}
use dfs_go.Rebalance.{
  Sent, file, manifest, Rebalancer, local_keys, migrate_key, migrate_loop, migrate_to_new_node,
  responsible, rereplicate_key, rereplicate_loop, rereplicate,
}

module _ {Data : Type 0} (hash_key : String → ℕ) (r : Rebalancer Data) where
  idle_loop :
      (dead_addr : String) (keys : List String)
      → IsValid r.ring
      → r.ring.repl_factor ≤ size r.ring
      → rereplicate_loop hash_key r dead_addr keys ≡ []
  unfolding rereplicate_loop
  idle_loop dead_addr [] v enough = refl
  idle_loop dead_addr (key ∷ keys) v enough = rw (idle_key, idle_loop dead_addr keys v enough) refl
    where
      idle_key : rereplicate_key hash_key r dead_addr key ≡ []
      idle_key =
          unfold rereplicate_key in
          unfold responsible in
          ground (arith, (get_nodes_correct hash_key r.ring key r.ring.repl_factor v).2, enough)

  -- After a node left, the re-replication sends nothing at all as long as the ring still has as
  -- many nodes as the replication factor.
  pub rereplicate_idle :
      (dead_addr : String)
      → IsValid r.ring
      → r.ring.repl_factor ≤ size r.ring
      → (rereplicate hash_key r dead_addr).sent ≡ r.sent
  unfolding rereplicate
  rereplicate_idle dead_addr v enough = elim (Bool-cases r.in_progress) [
    | inl e ↦ rw e refl
    | inr e ↦ simp (e, idle_loop dead_addr (local_keys r) v enough) (append-nil r.sent)
  ]

  -- This node and the new one are responsible for the key, which this node holds.
  pub record IsDue (new_addr key : String) : Type 0 where
    pub held : contains string_discrete (local_keys r) key ≡ true
    pub theirs : contains string_discrete (responsible hash_key r key) new_addr ≡ true
    pub ours : contains string_discrete (responsible hash_key r key) r.self_addr ≡ true

  -- A call that sends a copy of a due key, as it was read, to the new node.
  abbrev pub IsCopy : String → Sent Data → Type 0
  IsCopy new_addr (file target key text) =
      (target ≡ new_addr)
      × IsDue new_addr key
      × (r.wiring.has_prefix key "manifest:" ≡ false)
      × (r.wiring.read_file key ≡ some text)
  IsCopy new_addr (manifest target file_key text) =
      (target ≡ new_addr)
      × ((key : String) × (read : String → Option Data) × IsDue new_addr key
          × (r.wiring.has_prefix key "manifest:" ≡ true)
          × (r.wiring.trim_prefix key "manifest:" ≡ file_key)
          × (r.wiring.read_manifest ≡ some read)
          × (read file_key ≡ some text))

  migrate_key-IsCopy :
      (new_addr key : String)
      → IsDue new_addr key
      → All (IsCopy new_addr) (migrate_key r.wiring new_addr key)
  unfolding migrate_key
  migrate_key-IsCopy new_addr key due = elim (Bool-cases (r.wiring.has_prefix key "manifest:")) [
    | inr e ↦ elim (Option-cases (r.wiring.read_file key)) [
      | inl f ↦ rw (e, f) tt
      | inr (text, f) ↦ rw (e, f) ((refl, due, e, f), tt)
    ]
    | inl e ↦ elim (Option-cases r.wiring.read_manifest) [
      | inl f ↦ rw (e, f) tt
      | inr (read, f) ↦ elim (Option-cases r.wiring.send_manifest) [
        | inl g ↦ rw (e, f, g) tt
        | inr (send, g) ↦ elim (Option-cases (read (r.wiring.trim_prefix key "manifest:"))) [
          | inl t ↦ simp (e, f, g, t) tt
          | inr (text, t) ↦ simp (e, f, g, t) ((refl, (key, read, due, e, refl, refl, t)), tt)
        ]
      ]
    ]
  ]

  migrate_loop-IsCopy :
      (new_addr : String) (keys : List String)
      → ((key : String)
          → contains string_discrete keys key ≡ true
          → contains string_discrete (local_keys r) key ≡ true)
      → All (IsCopy new_addr) (migrate_loop hash_key r new_addr keys)
  unfolding migrate_loop contains
  migrate_loop-IsCopy new_addr [] within = tt
  migrate_loop-IsCopy new_addr (key ∷ keys) within =
      let rest = migrate_loop-IsCopy new_addr keys (λ k m. within k (ground (arith, m))) in
      elim (Bool-cases (contains string_discrete (responsible hash_key r key) new_addr)) [
        | inr e ↦ simp e rest
        | inl e ↦
            elim (Bool-cases (contains string_discrete (responsible hash_key r key) r.self_addr)) [
              | inr f ↦ simp (e, f) rest
              | inl f ↦
                  simp (e, f)
                    (All-append (IsCopy new_addr) (migrate_key r.wiring new_addr key)
                      (migrate_loop hash_key r new_addr keys)
                      (migrate_key-IsCopy new_addr key
                        record { held = within key (ground arith); theirs = e; ours = f })
                      rest)
            ]
      ]

  -- what the loop sends of a due key is among what it sends
  migrate_loop-Mem :
      (new_addr key : String) (call : Sent Data) (keys : List String)
      → IsDue new_addr key
      → contains string_discrete keys key ≡ true
      → Mem call (migrate_key r.wiring new_addr key)
      → Mem call (migrate_loop hash_key r new_addr keys)
  unfolding migrate_loop contains
  migrate_loop-Mem new_addr key call [] due m copy = absurd (ground (arith, m))
  migrate_loop-Mem new_addr key call (k ∷ keys) due m copy = elim (string_discrete key k) [
    | yes e ↦
        subst (λ x. Mem call (migrate_loop hash_key r new_addr (x ∷ keys))) e
          (simp (due.theirs, due.ours)
            (mem-append_left (migrate_loop hash_key r new_addr keys) copy))
    | no e ↦
        let rest = migrate_loop-Mem new_addr key call keys due (ground (arith, m)) copy in
        elim (Bool-cases (contains string_discrete (responsible hash_key r k) new_addr)) [
          | inr f ↦ simp f rest
          | inl f ↦
              elim (Bool-cases (contains string_discrete (responsible hash_key r k) r.self_addr)) [
                | inr g ↦ simp (f, g) rest
                | inl g ↦ simp (f, g) (mem-append_right (migrate_key r.wiring new_addr k) rest)
              ]
        ]
  ]

  migrate_key-manifest :
      (new_addr key : String) (text : Data) (read : String → Option Data)
      (send : String → String → Data → Bool)
      → r.wiring.has_prefix key "manifest:" ≡ true
      → r.wiring.read_manifest ≡ some read
      → r.wiring.send_manifest ≡ some send
      → read (r.wiring.trim_prefix key "manifest:") ≡ some text
      → Mem
          (manifest new_addr (r.wiring.trim_prefix key "manifest:") text)
          (migrate_key r.wiring new_addr key)
  unfolding migrate_key
  migrate_key-manifest new_addr key text read send e f g t = simp (e, f, g, t) mem-cons_self

  -- A migration that is not refused sends to the new node only, and only keys held here for which
  -- the new node and this one are both responsible: a manifest as one, any other key as a file, and
  -- each with the data read here. Of these keys it sends every file that can be read, and every
  -- manifest that can be read, where the functions for manifests are set.
  pub migrate_exact :
      (new_addr : String)
      → r.in_progress ≡ false
      → (sends : List (Sent Data)) × ((migrate_to_new_node hash_key r new_addr).sent
          ≡ r.sent ++ sends)
        × All (IsCopy new_addr) sends
        × ((key : String) (text : Data)
            → IsDue new_addr key
            → r.wiring.has_prefix key "manifest:" ≡ false
            → r.wiring.read_file key ≡ some text
            → Mem (file new_addr key text) sends)
        × ((key : String) (text : Data) (read : String → Option Data)
              (send : String → String → Data → Bool)
            → IsDue new_addr key
            → r.wiring.has_prefix key "manifest:" ≡ true
            → r.wiring.read_manifest ≡ some read
            → r.wiring.send_manifest ≡ some send
            → read (r.wiring.trim_prefix key "manifest:") ≡ some text
            → Mem (manifest new_addr (r.wiring.trim_prefix key "manifest:") text) sends)
  unfolding migrate_to_new_node
  migrate_exact new_addr idle = (
    migrate_loop hash_key r new_addr (local_keys r),
    simp idle refl,
    migrate_loop-IsCopy new_addr (local_keys r) (λ k m. m),
    λ key text due plain got.
        migrate_loop-Mem new_addr key (file new_addr key text) (local_keys r) due due.held
          (unfold migrate_key in simp (plain, got) mem-cons_self),
    λ key text read send due e f g t.
        migrate_loop-Mem new_addr key _ (local_keys r) due due.held
          (migrate_key-manifest new_addr key text read send e f g t),
  )
