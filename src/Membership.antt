-- ===== src/Membership.antt =====
-- src/init.rs: who takes part in a session, assembled from the on-chain node list and the peer
-- table. The node list is the answer of `get_signer_addresses`, and an argument.
pub mod Committee
pub mod Dealers
pub mod Resolve
mod Tests
use g_kms.Prelude.{
  ℕ, suc, ◌+◌, ◌-◌, ◌==◌, ltb, Bool, true, false, not, ◌&&◌, if◌then◌else◌, List, [], ◌∷◌, length,
  filter, get_elem?, Option, none, some, Result, ok, err, ◌>>=◌, ok_or, Map, lookup, nat_eq, map,
  max_or_zero, is_empty, Bytes, sort, insert_sorted, ◌++◌, all,
}
use g_kms.State.{AppState, PeerInfo, is_live}

-- `SessionPeer` of src/dkg.rs.
pub record SessionPeer : Type 0 where
  pub id : ℕ
  pub grpc_url : Bytes
  pub pubkey : Bytes
  pub epoch : ℕ

pub record Membership : Type 0 where
  pub own_id : ℕ
  pub peers : List SessionPeer
  pub threshold : ℕ
  pub total : ℕ
  pub all_discovered : Bool

-- `Membership::live_dealers`.
unfoldable pub live_dealers : Membership → List SessionPeer
live_dealers m = filter (λ p. ltb 0 p.epoch) m.peers

-- `Membership::leading_dealers`.
unfoldable pub leading_dealers : Membership → List SessionPeer
unfolding live_dealers
leading_dealers m =
    let dealers = live_dealers m in
    let leading = max_or_zero (map (λ p. p.epoch) dealers) in
    filter (λ p. p.epoch == leading) dealers

pub data SessionError : Type 0 where
  not_in_node_list : SessionError
  out_of_range : ℕ → SessionError
  not_discovered : ℕ → SessionError

-- `node_list.iter().position(|a| a == own)`, counting from `from`.
unfoldable pub position : ℕ → ℕ → List ℕ → Option ℕ
position own from [] = none
position own from (a ∷ list) =
    let rest = position own (suc from) list in if a == own then some from else rest

abbrev pub session_peer : ℕ → PeerInfo → SessionPeer
session_peer id info = record {
  id = id;
  grpc_url = info.grpc_url;
  pubkey = info.pubkey;
  epoch = info.epoch;
}

-- Discovered and live: the public key is known, and there was direct contact within the window.
abbrev pub usable : ℕ → Option PeerInfo → Option PeerInfo
usable now none = none
usable now (some info) = if not (is_empty info.pubkey) && is_live now info then some info else none

abbrev pub found : ℕ → Option PeerInfo → List SessionPeer × Bool → List SessionPeer × Bool
found id none (peers, all_discovered) = (peers, false)
found id (some info) (peers, all_discovered) = (session_peer id info ∷ peers, all_discovered)

-- The loop over the node list: the peers, and whether none is missing.
unfoldable pub discover : Map ℕ PeerInfo → ℕ → ℕ → ℕ → List ℕ → List SessionPeer × Bool
discover table now own_id id [] = ([], true)
discover table now own_id id (addr ∷ list) =
    let rest = discover table now own_id (suc id) list in
    if id == own_id then rest else found id (usable now (lookup addr table)) rest

abbrev pub membership : AppState → ℕ → List SessionPeer × Bool → Membership
membership s own_id (peers, all_discovered) = record {
  own_id = own_id;
  peers = peers;
  threshold = s.config.threshold;
  total = s.config.total_nodes;
  all_discovered = all_discovered;
}

-- `assemble_participants` at the instant `now`, given the node list.
unfoldable pub assemble_participants :
    AppState → ℕ → List ℕ → Result SessionError (Option Membership)
unfolding position discover
assemble_participants s now node_list =
    if ltb (length node_list) s.config.total_nodes
    then ok none
    else (ok_or (position s.eth_address 0 node_list) SessionError.not_in_node_list >>= λ own_pos.
        let own_id = own_pos + 1 in
        ok (some (membership s own_id (discover s.peer_table now own_id 1 node_list))))

-- The entry of a participant, whose public key must be known; it need not be live.
abbrev pub known : ℕ → Option PeerInfo → Result SessionError SessionPeer
known id none = err (SessionError.not_discovered id)
known id (some info) =
    if is_empty info.pubkey then err (SessionError.not_discovered id) else ok (session_peer id info)

-- `resolve_peers`, given the node list.
unfoldable pub resolve_peers :
    Map ℕ PeerInfo → List ℕ → ℕ → List ℕ → Result SessionError (List SessionPeer)
resolve_peers table node_list own_id [] = ok []
resolve_peers table node_list own_id (id ∷ ids) =
    let rest = resolve_peers table node_list own_id ids in
    if id == 0
    then rest
    else (if id == own_id
        then rest
        else (ok_or (get_elem? node_list (id - 1)) (SessionError.out_of_range id) >>= λ addr.
            known id (lookup addr table) >>= λ p. rest >>= λ ps. ok (p ∷ ps)))
