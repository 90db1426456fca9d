-- ===== src/Calls.antt =====
-- The calls that a member makes of another (src/grpc.rs): the clients that build and send a request,
-- and the handlers as the request's metadata reach them. The connection to a URL is the handler of
-- the peer that serves there, or none; it changes the state of that peer.
pub mod Accepted
pub mod Rounds
pub mod Reshares
pub mod Pushes
mod Tests
use g_kms.Prelude.{
  ℕ, is_some, List, [], ◌++◌, Option, none, some, Bytes, Result, ok, err, ◌>>=◌, map_err, codes,
}
use g_kms.State.{AppState, ShardState}
use g_kms.Gossip.{NodeInfo, AuthContext, gossip}
use g_kms.Auth.{Authority}
use g_kms.Auth.Metadata.{Formats, Metadata, request_metadata, parse_metadata, if_parsed}
use g_kms.Metrics.Registry.{Metrics}
use g_kms.Metrics.Counters.{record_outcome}
use g_kms.Reshare.{Session, ReshareError, run_reshare_dealer}
use g_kms.Service.{
  Ecies, Status, Call, DkgRoundMsg, ReshareRequest, caller, dkg_round, start_reshare,
}

-- A call fails at the connection or with the status of the handler.
pub data CallError : Type 0 where
  not_connected : CallError
  refused : Status → CallError

-- What a request does at a peer and to its state.
abbrev pub Handler : Type 0 → Type 0 → Type 0 → Type 0
Handler S Req Resp = Metadata → Req → S → Result Status Resp × S

abbrev pub received : {S Resp : Type 0} → Result Status Resp × S → Result CallError Resp × S
received (r, s) = (map_err CallError.refused r, s)

module _ (f : Formats) (a : Authority) where
  abbrev call_peer :
      {S Req Resp : Type 0}
      → Option (Handler S Req Resp)
      → Req
      → Bytes
      → ℕ
      → S
      → Result CallError Resp × S
  call_peer none req sig timestamp s = (err CallError.not_connected, s)
  call_peer (some handler) req sig timestamp s =
      received (handler (request_metadata f a sig timestamp) req s)

  -- `send_dkg_round`.
  unfoldable pub send_dkg_round :
      Option (Handler AppState DkgRoundMsg (Unit {0}))
      → Bytes
      → ℕ
      → ℕ
      → Bytes
      → Bytes
      → Bytes
      → ℕ
      → AppState
      → Result CallError (Unit {0}) × AppState
  send_dkg_round peer session_id round from_index broadcast p2p sig timestamp =
      call_peer peer
        (record {
          session_id = session_id;
          round = round;
          from_index = from_index;
          broadcast = broadcast;
          p2p = p2p;
        })
        sig timestamp

  -- `send_start_reshare`.
  unfoldable pub send_start_reshare :
      {S : Type 0}
      → Option (Handler S ReshareRequest (Unit {0}))
      → Bytes
      → ℕ
      → List ℕ
      → ℕ
      → Bytes
      → ℕ
      → S
      → Result CallError (Unit {0}) × S
  send_start_reshare peer session_id recovering_id dealer_ids epoch sig timestamp =
      call_peer peer
        (record {
          session_id = session_id;
          recovering_id = recovering_id;
          dealer_ids = dealer_ids;
          epoch = epoch;
        })
        sig timestamp

  -- `push_gossip`: the public key is left empty.
  unfoldable pub push_gossip :
      Option (Handler AppState (Option NodeInfo) (List NodeInfo))
      → Bytes
      → Bytes
      → ℕ
      → Bytes
      → Bytes
      → ℕ
      → AppState
      → Result CallError (List NodeInfo) × AppState
  push_gossip peer self_url self_eth_addr self_epoch self_group_pubkey sig timestamp =
      call_peer peer
        (some (record {
          grpc_url = self_url;
          eth_addr = self_eth_addr;
          pubkey = [];
          epoch = self_epoch;
          group_pubkey = self_group_pubkey;
        }))
        sig timestamp

-- A member that serves: the libraries, its private key, how it authenticates, and its clock.
module _ (f : Formats) (x : Ecies) (private_key : Bytes) (a : Authority) (now : ℕ) where
  abbrev pub call_of : Metadata → Call
  call_of metadata = record { metadata = if_parsed (parse_metadata f a metadata); now = now }

  abbrev pub served_dkg_round : Handler AppState DkgRoundMsg (Unit {0})
  served_dkg_round metadata msg s = dkg_round x private_key a (call_of metadata) msg s

  -- The requests whose dealer's part has been spawned stand beside the state.
  abbrev pub served_start_reshare :
      Handler (AppState × List ReshareRequest) ReshareRequest (Unit {0})
  served_start_reshare metadata req (s, spawned) =
      let (r, more) = start_reshare x private_key a (call_of metadata) req s in
      (r, (s, spawned ++ more))

  abbrev pub gossiped :
      (ℕ → Bytes)
      → Option NodeInfo
      → Result Status AuthContext
      → AppState
      → Result Status (List NodeInfo) × AppState
  gossiped encode_addr self_info (err e) s = (err e, s)
  gossiped encode_addr self_info (ok ctx) s =
      let (peers, table) = gossip encode_addr ctx now self_info s.peer_table in
      (ok peers, record s { peer_table = table })

  -- The handler `gossip`, at one instant.
  abbrev pub served_gossip : (ℕ → Bytes) → Handler AppState (Option NodeInfo) (List NodeInfo)
  served_gossip encode_addr metadata self_info s =
      gossiped encode_addr self_info (caller x private_key a (call_of metadata) (codes "Gossip") s)
        s

-- What `start_reshare` spawns: the dealer's part, and its outcome counted.
unfoldable pub deal_in_background :
    (ShardState → Bytes → Option Bytes)
    → List ℕ
    → Session
    → ReshareRequest
    → Metrics
    → AppState
    → Result ReshareError (Unit {0}) × AppState × Metrics
unfolding run_reshare_dealer record_outcome
deal_in_background seal node_list session req m s =
    let (r, s') =
      run_reshare_dealer seal node_list req.recovering_id req.dealer_ids req.epoch session s in
    let (succeeded, failed) = record_outcome r (m.dealer_ok, m.dealer_fail) in
    (r, s', record m { dealer_ok = succeeded; dealer_fail = failed })
