-- ===== src/Membership/Tests.antt =====
-- A committee of four, seen by its second node (src/init.rs).
use g_kms.Prelude.{
  ℕ, ◌≤◌, ◌<◌, ◌≡◌, refl, true, false, List, [], ◌∷◌, none, ok, some, Map, codes, All, is_empty,
  is_some, lookup, nat_eq, map, filter, not, ◌&&◌, ◌==◌,
}
use g_kms.State.{AppState, PeerInfo, Config, new_state, is_live}
use g_kms.Membership.{Membership, assemble_participants, membership, leading_dealers, discover}
use g_kms.Membership.Committee.{IsAssembled, assemble_participants-IsAssembled}

abbrev config : Config
config = record {
  threshold = 2;
  total_nodes = 4;
  self_url = codes "n2:1";
  seeds = [];
  sealed_share = none;
  sealed_share_path = none;
  timestamp_tolerance_secs = 300;
  app_id = codes "kms";
}

abbrev peer : ℕ → ℕ → PeerInfo
peer last_seen epoch = record {
  grpc_url = codes "n:1";
  last_seen = last_seen;
  pubkey = codes "pk";
  epoch = epoch;
  group_pubkey = codes "gpk";
}

-- Node 4, at address 40, was last seen two minutes ago.
abbrev table : Map ℕ PeerInfo
table = (10, peer 995 3) ∷ (30, peer 990 2) ∷ (40, peer 880 3) ∷ []

abbrev node : AppState
node = record (new_state config 20) { peer_table = table }

abbrev node_list : List ℕ
node_list = 10 ∷ 20 ∷ 30 ∷ 40 ∷ []

assembled :
    assemble_participants node 1000 node_list
    ≡ ok (
        some (record {
          own_id = 2;
          peers =
              record { id = 1; grpc_url = codes "n:1"; pubkey = codes "pk"; epoch = 3 }
              ∷ record { id = 3; grpc_url = codes "n:1"; pubkey = codes "pk"; epoch = 2 }
              ∷ [];
          threshold = 2;
          total = 4;
          all_discovered = false;
        }))
unfolding assemble_participants new_state is_live g_kms.Prelude.lookup g_kms.I64.le_i64
    g_kms.I64.sub_i64
assembled = refl

assemble_participants-IsAssembled_example :
    IsAssembled node 1000 node_list (assemble_participants node 1000 node_list)
assemble_participants-IsAssembled_example = assemble_participants-IsAssembled node 1000 node_list

abbrev committee : Membership
committee = membership node 2 (discover table 1000 2 1 node_list)

-- The stale node 3 does not deal.
dealers_of_committee :
    leading_dealers committee
    ≡ record { id = 1; grpc_url = codes "n:1"; pubkey = codes "pk"; epoch = 3 } ∷ []
unfolding leading_dealers discover lookup is_live g_kms.I64.le_i64 g_kms.I64.sub_i64
dealers_of_committee = refl
