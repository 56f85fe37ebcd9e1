-- ===== src/Tests/Gossips.antt =====
-- A new node that hears of two others.
use dfs_go.Common.{[], ◌∷◌, true, All}
use dfs_go.Membership.{alive, dead, NodeInfo, new}
use dfs_go.Gossip.{GossipService, MessageGossipDigest, MessageGossipResponse, handle_response}
use dfs_go.Gossip.Learns.{Learnt, Grows, handle_response-Learnt}

abbrev node : GossipService
node = record {
  fan_out = 2;
  self_addr = "s";
  self_fingerprint = "f";
  has_on_new_peer = true;
  cluster = new "s" 8;
  dialled = [];
}

abbrev asked : MessageGossipDigest
asked = record {
  from = "p";
  digests =
      record { addr = "p"; state = alive; generation = 5 }
      ∷ record { addr = "q"; state = dead; generation = 3 }
      ∷ [];
}

abbrev other : NodeInfo
other = record {
  addr = "q";
  state = alive;
  generation = 4;
  last_updated = 7;
  metadata = ("fingerprint", "g") ∷ [];
}

abbrev answer : MessageGossipResponse
answer = record {
  from = "p";
  full = other ∷ [];
  my_digest = record { addr = "p"; state = alive; generation = 6 } ∷ [];
}

handle_response-Learnt_example :
    All (λ info. Learnt node (handle_response 9 answer node).cluster info) (other ∷ [])
    × Grows (new "s" 8) (handle_response 9 answer node).cluster
handle_response-Learnt_example = handle_response-Learnt 9 answer node
