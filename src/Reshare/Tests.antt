-- ===== src/Reshare/Tests.antt =====
-- Recoveries, reshares and a refresh of the committee of four (src/init.rs).
use g_kms.Prelude.{
  ℕ, ◌+◌, ◌/◌, ◌≤◌, ◌<◌, ◌≡◌, ◌↔◌, ◌⊎◌, refl, true, false, List, [], ◌∷◌, length, max, mem, All,
  is_some, none, some, Option, ok, err, Bytes, codes, Map, lookup,
}
use g_kms.State.{AppState, ShardState, PeerInfo, Config, new_state, is_live, epoch_of, known_epoch}
use g_kms.Membership.{
  Membership, assemble_participants, membership, discover, leading_dealers, live_dealers, position,
}
use g_kms.Reshare.{
  next_epoch, Session, recovery_gate, run_reshare_recovery, run_reshare_dealer, trigger_refresh,
  new_shard, store_share,
}
use g_kms.Reshare.Quorum.{participants, meets, recoveries-meet}
use g_kms.Reshare.Commit.{
  IsAhead, IsStored, run_reshare_recovery-preserves, run_reshare_dealer-preserves,
  trigger_refresh-whole,
}

abbrev config : Config
config = record {
  threshold = 2;
  total_nodes = 4;
  self_url = codes "n:1";
  seeds = [];
  sealed_share = none;
  sealed_share_path = none;
  timestamp_tolerance_secs = 300;
  app_id = codes "kms";
}

abbrev peer : ℕ → PeerInfo
peer epoch = record {
  grpc_url = codes "n:1";
  last_seen = 990;
  pubkey = codes "pk";
  epoch = epoch;
  group_pubkey = codes "gpk";
}

abbrev node_list : List ℕ
node_list = 10 ∷ 20 ∷ 30 ∷ 40 ∷ []

-- Nodes 20 and 30 have lost their shares; each sees the other two at epoch 3.
abbrev lost : AppState
lost = record (new_state config 20) { peer_table = (10, peer 3) ∷ (30, peer 0) ∷ (40, peer 3) ∷ [] }

abbrev lost' : AppState
lost' = record (new_state config 30) {
  peer_table = (10, peer 3) ∷ (20, peer 0) ∷ (40, peer 3) ∷ [];
}

abbrev committee : Membership
committee = membership lost 2 (discover lost.peer_table 1000 2 1 node_list)

abbrev committee' : Membership
committee' = membership lost' 3 (discover lost'.peer_table 1000 3 1 node_list)

recoveries-meet_example : meets (participants committee) (participants committee') ≡ true
unfolding assemble_participants new_state recovery_gate leading_dealers lookup is_live
    g_kms.I64.le_i64 g_kms.I64.sub_i64
recoveries-meet_example =
    recoveries-meet lost lost' 1000 1000 node_list committee committee' refl refl refl refl refl
      refl

abbrev sealed : ShardState → Bytes → Option Bytes
sealed shard pk = some shard.shard_bytes

abbrev quiet : Session
quiet = record { meanwhile = λ s. s; keys = some (codes "new", codes "gpk") }

abbrev recovered : AppState
recovered = store_share sealed (new_shard 2 (codes "new") 4) (codes "gpk") lost

run_reshare_recovery-preserves_example :
    (max committee.threshold (committee.total / 2) ≤ length (leading_dealers committee))
    × IsAhead lost recovered
    × IsStored 2 (next_epoch (known_epoch lost)) quiet.keys lost recovered
unfolding run_reshare_recovery new_state leading_dealers known_epoch discover lookup is_live
    g_kms.I64.le_i64 g_kms.I64.sub_i64
run_reshare_recovery-preserves_example =
    run_reshare_recovery-preserves sealed committee quiet lost recovered refl

-- A dealer at epoch 3; during its session for epoch 4, another session stores a share of epoch 5.
abbrev dealer : AppState
dealer = record (new_state config 20) {
  shard = some (new_shard 2 (codes "old") 3);
  group_pubkey = some (codes "gpk");
  peer_table = (10, peer 3) ∷ (30, peer 3) ∷ (40, peer 3) ∷ [];
}

abbrev overtaken : Session
overtaken = record {
  meanwhile = λ s. record s { shard = some (new_shard 2 (codes "newest") 5) };
  keys = some (codes "new", codes "gpk");
}

abbrev dealt : AppState
dealt = store_share sealed (new_shard 2 (codes "new") 4) (codes "gpk") dealer

run_reshare_dealer-preserves_example :
    (pos : ℕ) × (position 20 0 node_list ≡ some pos)
    × (mem (pos + 1) (1 ∷ 2 ∷ 4 ∷ []) ≡ true)
    × (3 < 4)
    × (is_some dealer.shard ≡ true)
    × IsStored (pos + 1) 4 overtaken.keys (overtaken.meanwhile dealer) dealt
unfolding run_reshare_dealer new_state g_kms.Membership.resolve_peers lookup position
run_reshare_dealer-preserves_example =
    run_reshare_dealer-preserves sealed node_list 3 (1 ∷ 2 ∷ 4 ∷ []) 4 overtaken dealer dealt refl

trigger_refresh-whole_example :
    (m : Membership) × (assemble_participants dealer 1000 node_list ≡ ok (some m))
    × (m.all_discovered ≡ true)
    × All (λ p. p.epoch ≡ 3) m.peers
    × (epoch_of dealt.shard ≡ known_epoch dealer + 1)
unfolding trigger_refresh new_state g_kms.Membership.resolve_peers lookup is_live g_kms.I64.le_i64
    g_kms.I64.sub_i64 known_epoch assemble_participants g_kms.Prelude.sort
trigger_refresh-whole_example =
    trigger_refresh-whole sealed node_list 1000 (λ s. s) node_list quiet dealer dealt refl
