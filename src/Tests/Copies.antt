-- ===== src/Tests/Copies.antt =====
-- A rebalancer on a ring of two nodes, both responsible for every key.
use mathlib.Core.List.{Mem, lookup}
use dfs_go.Common.{
  ◌≤◌, ◌≡◌, refl, String, List, [], ◌∷◌, ◌++◌, true, false, Bool, Option, some, none, All, arith,
  string_discrete, test,
}
use dfs_go.HashRing.{size, members, add_node, has_node}
use dfs_go.Common.Assoc.{insert}
use dfs_go.Rebalance.{Wiring, Sent, file, manifest, Rebalancer, migrate_to_new_node, rereplicate}
use dfs_go.Rebalance.Sends.{IsDue, IsCopy, rereplicate_idle, migrate_exact}
use dfs_go.Tests.Ring.{toy, two_nodes, two_nodes-IsValid}

abbrev wiring : Wiring String
wiring = record {
  stored_keys = some ("k" ∷ "l" ∷ []);
  read_file = λ key. some key;
  send_file = λ target key text. true;
  read_manifest = none;
  send_manifest = none;
  should_skip = none;
  has_prefix = λ key prefix. false;
  trim_prefix = λ key prefix. key;
}

abbrev node_a : Rebalancer String
node_a = record {
  self_addr = "a";
  ring = two_nodes;
  wiring = wiring;
  in_progress = false;
  sent = [];
}

enough : two_nodes.repl_factor ≤ size two_nodes
unfolding size members has_node lookup add_node insert string_discrete
enough = omega arith

rereplicate_idle_example : (rereplicate toy node_a "c").sent ≡ []
rereplicate_idle_example = rereplicate_idle toy node_a "c" two_nodes-IsValid enough

-- a node that also holds a manifest
abbrev manifest_io : Wiring String
manifest_io = record wiring {
  stored_keys = some ("k" ∷ "manifest:l" ∷ []);
  read_manifest = some (λ key. some key);
  send_manifest = some (λ target key text. true);
  has_prefix = λ key prefix. test (string_discrete key "manifest:l");
  trim_prefix = λ key prefix. "l";
}

abbrev holder : Rebalancer String
holder = record node_a { wiring = manifest_io }

migrate_exact_example :
    (sends : List (Sent String)) × ((migrate_to_new_node toy holder "b").sent ≡ [] ++ sends)
    × All (IsCopy toy holder "b") sends
    × ((key : String) (text : String)
        → IsDue toy holder "b" key
        → manifest_io.has_prefix key "manifest:" ≡ false
        → manifest_io.read_file key ≡ some text
        → Mem (file "b" key text) sends)
    × ((key : String) (text : String) (read : String → Option String)
          (send : String → String → String → Bool)
        → IsDue toy holder "b" key
        → manifest_io.has_prefix key "manifest:" ≡ true
        → manifest_io.read_manifest ≡ some read
        → manifest_io.send_manifest ≡ some send
        → read (manifest_io.trim_prefix key "manifest:") ≡ some text
        → Mem (manifest "b" (manifest_io.trim_prefix key "manifest:") text) sends)
migrate_exact_example = migrate_exact toy holder "b" refl
