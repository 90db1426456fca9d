-- ===== src/State.antt =====
-- src/server.rs: a node's shared state, and its readings. An eth address is a number; a string is
-- its bytes; the locks around the fields are left out.
mod Urls
use g_kms.Prelude.{
  ℕ, Bool, List, Option, none, some, Map, lookup, insert, get_or_default, values, map, Bytes,
  nat_eq, max, max_or_zero, is_some, [],
}
use g_kms.I64.{sub_i64, le_i64}
pub use Urls.{sort_urls, dedup}

-- The window of direct contact in which a peer counts as live, in seconds.
abbrev pub peer_liveness_window_secs : ℕ
peer_liveness_window_secs = 90

pub record PeerInfo : Type 0 where
  pub grpc_url : Bytes
  -- an i64
  pub last_seen : ℕ
  pub pubkey : Bytes
  pub epoch : ℕ
  pub group_pubkey : Bytes

-- `PeerInfo::is_live`.
unfoldable pub is_live : ℕ → PeerInfo → Bool
is_live now p = le_i64 (sub_i64 now p.last_seen) peer_liveness_window_secs

pub record ShardState : Type 0 where
  pub shard_index : ℕ
  pub shard_bytes : Bytes
  pub epoch : ℕ

-- `rounds[round][from_index]` is the broadcast with the decrypted p2p payload.
pub record DkgSession : Type 0 where
  pub rounds : Map ℕ (Map ℕ (Bytes × Bytes))

abbrev pub new_session : DkgSession
new_session = record { rounds = [] }

-- `DkgSession::record`; the wake-up of the waiting driver is left out.
unfoldable pub record_round : DkgSession → ℕ → ℕ → Bytes → Bytes → DkgSession
record_round s round from_index broadcast p2p = record {
  rounds =
      insert round (insert from_index (broadcast, p2p) (get_or_default [] round s.rounds)) s.rounds;
}

-- The fields of `Config` that the model reads.
pub record Config : Type 0 where
  pub threshold : ℕ
  pub total_nodes : ℕ
  pub self_url : Bytes
  pub seeds : List Bytes
  pub sealed_share : Option Bytes
  pub sealed_share_path : Option Bytes
  -- an i64
  pub timestamp_tolerance_secs : ℕ
  pub app_id : Bytes

pub record AppState : Type 0 where
  pub config : Config
  pub eth_address : ℕ
  pub shard : Option ShardState
  pub pending_shards : Option (List (ℕ × Bytes))
  pub peer_table : Map ℕ PeerInfo
  pub dkg_sessions : Map Bytes DkgSession
  pub group_pubkey : Option Bytes
  pub sealed_share : Option Bytes

-- `AppState::new`.
unfoldable pub new_state : Config → ℕ → AppState
new_state config eth_address = record {
  config = config;
  eth_address = eth_address;
  shard = none;
  pending_shards = none;
  peer_table = [];
  dkg_sessions = [];
  group_pubkey = none;
  sealed_share = none;
}

-- `AppState::is_initialized`.
unfoldable pub is_initialized : AppState → Bool
is_initialized s = is_some s.shard

-- The epoch of a share, 0 for none.
abbrev pub epoch_of : Option ShardState → ℕ
epoch_of none = 0
epoch_of (some s) = s.epoch

-- `AppState::known_epoch`.
unfoldable pub known_epoch : AppState → ℕ
known_epoch s = max (epoch_of s.shard) (max_or_zero (map (λ p. p.epoch) (values s.peer_table)))

-- `AppState::peer_urls`.
unfoldable pub peer_urls : AppState → List Bytes
peer_urls s = dedup (sort_urls (map (λ p. p.grpc_url) (values s.peer_table)))
