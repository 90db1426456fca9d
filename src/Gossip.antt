-- ===== src/Gossip.antt =====
-- src/grpc.rs: the `gossip` handler and the rounds of the gossip task, which keep the peer table.
-- The hex text of an address is read and written by the `hex` crate, a parameter.
pub mod Relay
mod Tests
use g_kms.Prelude.{
  ℕ, Bool, true, false, not, filter, is_empty, if◌then◌else◌, beq_bytes, List, [], ◌∷◌, Option,
  none, some, Map, lookup, insert, values, map, nat_eq, Bytes, max, unwrap_or,
}
use g_kms.State.{AppState, PeerInfo}

-- `NodeInfo` of proto/kms_cluster.proto.
pub record NodeInfo : Type 0 where
  pub grpc_url : Bytes
  pub eth_addr : Bytes
  pub pubkey : Bytes
  pub epoch : ℕ
  pub group_pubkey : Bytes

abbrev pub PeerTable : Type 0
PeerTable = Map ℕ PeerInfo

-- The caller, as `authenticate` returns it.
pub record AuthContext : Type 0 where
  pub caller_pubkey : Bytes
  pub caller_eth_addr : ℕ

-- What the handler stores of a caller that reports about itself at the instant `now`.
unfoldable pub register : AuthContext → ℕ → Option NodeInfo → PeerTable → PeerTable
register ctx now none table = table
register ctx now (some info) table =
    if is_empty info.grpc_url
    then table
    else insert ctx.caller_eth_addr
        (record {
          grpc_url = info.grpc_url;
          last_seen = now;
          pubkey = ctx.caller_pubkey;
          epoch = info.epoch;
          group_pubkey = info.group_pubkey;
        })
        table

abbrev pub node_info : (ℕ → Bytes) → ℕ × PeerInfo → NodeInfo
node_info encode_addr (addr, p) = record {
  grpc_url = p.grpc_url;
  eth_addr = encode_addr addr;
  pubkey = p.pubkey;
  epoch = p.epoch;
  group_pubkey = p.group_pubkey;
}

-- The `gossip` handler behind `authenticate`: the new table, and the reply, which lists it.
unfoldable pub gossip :
    (ℕ → Bytes) → AuthContext → ℕ → Option NodeInfo → PeerTable → List NodeInfo × PeerTable
unfolding register
gossip encode_addr ctx now self_info table =
    let table' = register ctx now self_info table in (map (node_info encode_addr) table', table')

abbrev pub or_keep : Bytes → Bytes → Bytes
or_keep old new = if is_empty new then old else new

-- `and_modify`: what a relay says of a peer that is known.
abbrev pub update_relayed : NodeInfo → PeerInfo → PeerInfo
update_relayed peer e = record {
  grpc_url = peer.grpc_url;
  last_seen = e.last_seen;
  pubkey = or_keep e.pubkey peer.pubkey;
  epoch = max e.epoch peer.epoch;
  group_pubkey = or_keep e.group_pubkey peer.group_pubkey;
}

-- `or_insert_with`: a peer known only by relay was never seen alive.
abbrev pub new_relayed : NodeInfo → PeerInfo
new_relayed peer = record {
  grpc_url = peer.grpc_url;
  last_seen = 0;
  pubkey = peer.pubkey;
  epoch = peer.epoch;
  group_pubkey = peer.group_pubkey;
}

abbrev pub relayed : NodeInfo → Option PeerInfo → PeerInfo
relayed peer none = new_relayed peer
relayed peer (some e) = update_relayed peer e

abbrev pub merge_at : NodeInfo → Option ℕ → PeerTable → PeerTable
merge_at peer none table = table
merge_at peer (some addr) table = insert addr (relayed peer (lookup addr table)) table

module _ (decode_addr : Bytes → Option ℕ) (self_url : Bytes) where
  -- One peer of a reply; an address that is not 20 bytes of hex is skipped.
  unfoldable pub merge_peer : NodeInfo → PeerTable → PeerTable
  merge_peer peer table =
      if beq_bytes peer.grpc_url self_url
      then table
      else (if is_empty peer.grpc_url
          then table
          else merge_at peer (decode_addr peer.eth_addr) table)

  unfoldable pub merge_peers : List NodeInfo → PeerTable → PeerTable
  unfolding merge_peer
  merge_peers [] table = table
  merge_peers (peer ∷ peers) table = merge_peers peers (merge_peer peer table)

-- A push that succeeded shows that its target is alive.
abbrev pub touch : Bytes → ℕ → PeerInfo → PeerInfo
touch target now e = if beq_bytes e.grpc_url target then record e { last_seen = now } else e

unfoldable pub touch_all : Bytes → ℕ → PeerTable → PeerTable
touch_all target now [] = []
touch_all target now ((addr, e) ∷ table) = (addr, touch target now e) ∷ touch_all target now table

-- The end of a push: what other tasks did to the table meanwhile, and, for a success, the instant
-- and the peers that the target knows.
pub record Push : Type 0 where
  pub meanwhile : PeerTable → PeerTable
  pub outcome : Option (ℕ × List NodeInfo)

module _ (decode_addr : Bytes → Option ℕ) (self_url : Bytes) where
  unfoldable pub apply_push : Bytes → Option (ℕ × List NodeInfo) → PeerTable → PeerTable
  unfolding touch_all merge_peers
  apply_push target none table = table
  apply_push target (some (now, received)) table =
      merge_peers decode_addr self_url received (touch_all target now table)

  unfoldable pub push_all : (Bytes → Push) → List Bytes → PeerTable → PeerTable
  unfolding apply_push
  push_all push [] table = table
  push_all push (target ∷ targets) table =
      let p = push target in push_all push targets (apply_push target p.outcome (p.meanwhile table))

abbrev pub or_seeds : List Bytes → List Bytes → List Bytes
or_seeds seeds [] = seeds
or_seeds seeds (u ∷ us) = u ∷ us

-- Whom a round pushes to: the known peers, or else the seeds, without this node.
unfoldable pub gossip_targets : AppState → List Bytes
gossip_targets s =
    if is_empty s.config.self_url
    then []
    else filter (λ u. not (beq_bytes u s.config.self_url))
        (or_seeds s.config.seeds (map (λ p. p.grpc_url) (values s.peer_table)))

-- `gossip_round`, where signing the request succeeds (a failure leaves the state alone).
unfoldable pub gossip_round : (Bytes → Option ℕ) → (Bytes → Push) → AppState → AppState
unfolding push_all
gossip_round decode_addr push s = record s {
  peer_table = push_all decode_addr s.config.self_url push (gossip_targets s) s.peer_table;
}
