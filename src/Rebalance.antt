-- ===== src/Rebalance.antt =====
-- Cluster/rebalance/rebalance.go: migration to a node that joined and re-replication after one
-- left. The closures of the server, the metadata store and the prefix functions of package strings
-- are the parameter `Wiring`; `sent` logs the calls that send. Nothing closes `stopCh`, so the
-- pause between migrations has no other effect than its delay, which is left out. A run is one
-- step, which sets and clears `in_progress`; a call during a run is one that finds it set.
pub mod Sends
use dfs_go.Common.{
  ℕ, zero, suc, String, List, [], ◌∷◌, ◌++◌, Bool, true, false, ◌||◌, ◌&&◌, not, Option, none, some,
  leb, ltb, ◌==◌, if◌then◌else◌, length, select, contains, string_discrete, test,
}
use dfs_go.HashRing.{HashRing, get_nodes}

pub record Wiring (Data : Type 0) : Type 0 where
  pub stored_keys : Option (List String)
  pub read_file : String → Option Data
  pub send_file : String → String → Data → Bool
  pub read_manifest : Option (String → Option Data)
  pub send_manifest : Option (String → String → Data → Bool)
  pub should_skip : Option (String → Bool)
  pub has_prefix : String → String → Bool
  pub trim_prefix : String → String → String

-- a call of `sendFile` or `sendManifest`: the target, the key and the data
pub data Sent (Data : Type 0) : Type 0 where
  file : String → String → Data → Sent Data
  manifest : String → String → Data → Sent Data

pub record Rebalancer (Data : Type 0) : Type 0 where
  pub self_addr : String
  pub ring : HashRing
  pub wiring : Wiring Data
  pub in_progress : Bool
  pub sent : List (Sent Data)

module _ {Data : Type 0} where
  unfoldable pub new : String → HashRing → Wiring Data → Rebalancer Data
  new self_addr ring wiring = record {
    self_addr = self_addr;
    ring = ring;
    wiring = wiring;
    in_progress = false;
    sent = [];
  }

  unfoldable pub set_manifest_funcs :
      Rebalancer Data → (String → Option Data) → (String → String → Data → Bool) → Rebalancer Data
  set_manifest_funcs r read send = record r {
    wiring = record r.wiring { read_manifest = some read; send_manifest = some send };
  }

  unfoldable pub set_should_skip_key : Rebalancer Data → (String → Bool) → Rebalancer Data
  set_should_skip_key r skip = record r { wiring = record r.wiring { should_skip = some skip } }

  unfoldable pub local_keys : Rebalancer Data → List String
  local_keys r = elim r.wiring.stored_keys [
    | none ↦ []
    | some all ↦ elim r.wiring.should_skip [
      | none ↦ all
      | some skip ↦ select (λ key. not (skip key)) all
    ]
  ]

  -- what a responsible node sends of one key to a node that joined
  unfoldable pub migrate_key : Wiring Data → String → String → List (Sent Data)
  migrate_key io new_addr key =
      if io.has_prefix key "manifest:"
      then (let file_key = io.trim_prefix key "manifest:" in
          elim io.read_manifest [
            | none ↦ []
            | some read ↦ elim io.send_manifest [
              | none ↦ []
              | some send ↦ elim (read file_key) [
                | none ↦ []
                | some text ↦ manifest new_addr file_key text ∷ []
              ]
            ]
          ])
      else (elim (io.read_file key) [ none ↦ [] | some text ↦ file new_addr key text ∷ [] ])

  -- the loop of `rereplicate` over the responsible nodes
  unfoldable pub send_to : String → String → String → Data → List String → List (Sent Data)
  send_to self_addr dead_addr key text [] = []
  send_to self_addr dead_addr key text (target ∷ targets) =
      let rest = send_to self_addr dead_addr key text targets in
      if test (string_discrete target self_addr) || test (string_discrete target dead_addr)
      then rest
      else file target key text ∷ rest

  module _ (hash_key : String → ℕ) where
    unfoldable pub responsible : Rebalancer Data → String → List String
    responsible r key = get_nodes hash_key r.ring key r.ring.repl_factor

    -- the loop of `migrateToNewNode`; a failed send is only logged
    unfoldable pub migrate_loop : Rebalancer Data → String → List String → List (Sent Data)
    migrate_loop r new_addr [] = []
    migrate_loop r new_addr (key ∷ keys) =
        let rest = migrate_loop r new_addr keys in
        if not (contains string_discrete (responsible r key) new_addr)
        then rest
        else if not (contains string_discrete (responsible r key) r.self_addr)
        then rest
        else migrate_key r.wiring new_addr key ++ rest

    unfoldable pub migrate_to_new_node : Rebalancer Data → String → Rebalancer Data
    migrate_to_new_node r new_addr =
        if r.in_progress
        then r
        else record r { sent = r.sent ++ migrate_loop r new_addr (local_keys r) }

    -- the body of the loop of `rereplicate`
    unfoldable pub rereplicate_key : Rebalancer Data → String → String → List (Sent Data)
    rereplicate_key r dead_addr key =
        if leb r.ring.repl_factor (length (responsible r key))
        then []
        else if not (contains string_discrete (responsible r key) r.self_addr)
        then []
        else (elim (r.wiring.read_file key) [
          | none ↦ []
          | some text ↦ send_to r.self_addr dead_addr key text (responsible r key)
        ])

    unfoldable pub rereplicate_loop : Rebalancer Data → String → List String → List (Sent Data)
    rereplicate_loop r dead_addr [] = []
    rereplicate_loop r dead_addr (key ∷ keys) =
        rereplicate_key r dead_addr key ++ rereplicate_loop r dead_addr keys

    unfoldable pub rereplicate : Rebalancer Data → String → Rebalancer Data
    rereplicate r dead_addr =
        if r.in_progress
        then r
        else record r { sent = r.sent ++ rereplicate_loop r dead_addr (local_keys r) }
