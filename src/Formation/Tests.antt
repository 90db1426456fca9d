-- ===== src/Formation/Tests.antt =====
-- Passes of the formation and checks of the watchdog for a node of two (src/init.rs).
use g_kms.Prelude.{ℕ, ◌≡◌, refl, true, [], ◌∷◌, none, some, Option, ok, Bytes, codes, lookup}
use g_kms.Time.{seconds}
use g_kms.State.{AppState, ShardState, PeerInfo, Config, new_state, known_epoch, is_live}
use g_kms.Membership.{assemble_participants, leading_dealers}
use g_kms.Reshare.{Session, new_shard, store_share, run_genesis, run_reshare_recovery}
use g_kms.Formation.{Contact, Code, Pass, Decision, form_pass}

abbrev config : Config
config = record {
  threshold = 1;
  total_nodes = 2;
  self_url = codes "a:1";
  seeds = codes "b:1" ∷ [];
  sealed_share = none;
  sealed_share_path = none;
  timestamp_tolerance_secs = 300;
  app_id = codes "kms";
}

abbrev peer : ℕ → PeerInfo
peer epoch = record {
  grpc_url = codes "b:1";
  last_seen = 990;
  pubkey = codes "pk";
  epoch = epoch;
  group_pubkey = codes "gpk";
}

abbrev node : ℕ → AppState
node epoch = record (new_state config 10) { peer_table = (20, peer epoch) ∷ [] }

abbrev sealed : ShardState → Bytes → Option Bytes
sealed shard pk = some shard.shard_bytes

abbrev session : Session
session = record { meanwhile = λ s. s; keys = some (codes "new", codes "gpk") }

abbrev pass : Contact → Pass
pass contact = record {
  node_list = some (10 ∷ 20 ∷ []);
  now = 1000;
  signed = true;
  contact = λ u. contact;
  while_asking = λ s. s;
  instant = seconds 5000;
  session = session;
}

-- The seed cannot be reached: a genesis.
genesis_of_two : form_pass sealed (pass Contact.no_connection) none (node 0) ≡ (
  Decision.genesis (ok tt),
  none,
  store_share sealed (new_shard 1 (codes "new") 1) (codes "gpk") (node 0),
)
unfolding form_pass assemble_participants new_state run_genesis lookup is_live g_kms.I64.le_i64
    g_kms.I64.sub_i64
genesis_of_two = refl

-- The seed holds a share of epoch 3: a recovery.
recovery_of_two :
    form_pass sealed (pass (Contact.refused_with Code.failed_precondition)) none (node 3) ≡ (
      Decision.recovery (ok tt),
      none,
      store_share sealed (new_shard 1 (codes "new") 4) (codes "gpk") (node 3),
    )
unfolding form_pass assemble_participants new_state run_reshare_recovery leading_dealers lookup
    is_live known_epoch g_kms.I64.le_i64 g_kms.I64.sub_i64
recovery_of_two = refl

-- A node at epoch 2 whose peer is at epoch 3.
abbrev behind : AppState
behind = record (node 3) {
  shard = some (new_shard 1 (codes "old") 2);
  group_pubkey = some (codes "gpk");
}

abbrev caught_up : AppState
caught_up = store_share sealed (new_shard 1 (codes "new") 4) (codes "gpk") behind
