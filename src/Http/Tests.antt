-- ===== src/Http/Tests.antt =====
-- Requests for a key, a refresh and the list of peers (src/server.rs).
use g_kms.Prelude.{
  ℕ, zero, suc, refl, true, [], ◌∷◌, ◌++◌, none, some, Bytes, codes, ok, trim_0x, lookup, sort,
  insert, bytes_eq,
}
use g_kms.I64.{in_tolerance}
use g_kms.State.{AppState, Config, ShardState, PeerInfo, new_state}
use g_kms.Derive.{Bls, DeriveTrace, collect_and_dprf}
use g_kms.Reshare.{Session}
use g_kms.Metrics.Registry.{new_metrics}
use g_kms.Http.{
  Web, AppKeyRequest, KeyWorld, RefreshRequest, RefreshWorld, app_key_inner, handle_refresh,
  handle_peers,
}
use g_kms.Metrics.Render.{render}
use g_kms.Metrics.Scrape.{scrape}
use g_kms.Metrics.Tests.{texts, reading, texts-IsLegible}
use g_kms.Http.Monitoring.{Shows, render-handle_peers}
use g_kms.Http.Keys.{IsEntitled, IsIssued, app_key_inner-IsIssued}
use g_kms.Http.Refreshes.{IsAnswer, handle_refresh-IsAnswer}

abbrev zeros : ℕ → Bytes
zeros zero = []
zeros (suc n) = 0 ∷ zeros n

-- A signature in the normalized and in the Ethereum form.
abbrev normalized : Bytes
normalized = zeros 64 ++ 0 ∷ []

abbrev ethereum : Bytes
ethereum = zeros 64 ++ 27 ∷ []

-- Texts are their own bytes.
abbrev web : Web
web = record {
  hex_decode = λ t. some t;
  hex_encode = λ b. b;
  decimal_i64 = λ n. codes "1000";
  decimal = λ n. codes "22";
  recover_address = λ m rs v. some 10;
  ecies_encrypt = λ k m. some m;
}

abbrev bls : Bls
bls = record {
  Share = Bytes;
  Partial = Bytes;
  Sigma = Bytes;
  share_from_bytes = λ b. some b;
  sign = λ share msg. some share;
  partial_from_bytes = λ b. some b;
  combine = λ partials. some (codes "sigma");
  verify = λ sigma pk msg. true;
  app_key = λ sigma. sigma;
}

abbrev config : Config
config = record {
  threshold = 1;
  total_nodes = 2;
  self_url = codes "a:1";
  seeds = [];
  sealed_share = none;
  sealed_share_path = none;
  timestamp_tolerance_secs = 300;
  app_id = codes "kms";
}

abbrev own : ShardState
own = record { shard_index = 1; shard_bytes = codes "share"; epoch = 1 }

abbrev peer : ℕ → Bytes → PeerInfo
peer epoch pk = record {
  grpc_url = codes "b:1";
  last_seen = 990;
  pubkey = codes "pk";
  epoch = epoch;
  group_pubkey = pk;
}

abbrev node : AppState
node = record (new_state config 10) {
  shard = some own;
  group_pubkey = some (codes "gpk");
  peer_table = (20, peer 1 (codes "other")) ∷ (30, peer 0 []) ∷ [];
}

abbrev request : AppKeyRequest
request = record {
  app_id = codes "app";
  timestamp = 1000;
  pubkey = codes "pk";
  signature = normalized;
  material = codes "m";
}

abbrev world : KeyWorld
world = record {
  now = 1010;
  signers = λ app addr. ok (10 ∷ []);
  require_verified = λ app addr. ok tt;
  while_checking = λ s. s;
  request_sig = some (codes "sig");
  replies = [];
  while_collecting = λ s. s;
}

abbrev trace : DeriveTrace
trace = record { coordinator = 1; epoch = 1; servers = 1 ∷ [] }

app_key_inner-IsIssued_example :
    IsEntitled web request world node × IsIssued web bls request world node (codes "sigma") trace
unfolding app_key_inner in_tolerance new_state trim_0x collect_and_dprf lookup sort insert
app_key_inner-IsIssued_example =
    app_key_inner-IsIssued web bls request world node (codes "sigma") trace refl

abbrev session : Session
session = record { meanwhile = λ s. s; keys = some (codes "new", codes "gpk") }

abbrev refresh : RefreshRequest
refresh = record { timestamp = 1000; signature = ethereum }

abbrev refresh_world : RefreshWorld
refresh_world = record {
  now = 1010;
  owner = ok 10;
  node_list = 10 ∷ 20 ∷ [];
  prepared = 1010;
  between = λ s. s;
  node_list' = 10 ∷ 20 ∷ [];
  session = session;
}

handle_refresh-IsAnswer_example :
    IsAnswer
      (λ shard pk. some pk)
      web
      refresh
      refresh_world
      new_metrics
      node
      (handle_refresh web (λ shard pk. some pk) refresh refresh_world new_metrics node)
handle_refresh-IsAnswer_example =
    handle_refresh-IsAnswer (λ shard pk. some pk) web refresh refresh_world new_metrics node

render-handle_peers_example :
    Shows texts
      (scrape (render texts reading new_metrics node))
      (handle_peers 1005 1000 (λ s. s) node).0
render-handle_peers_example =
    render-handle_peers texts reading new_metrics node 1005 (λ s. s) texts-IsLegible
