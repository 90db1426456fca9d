-- ===== src/Calls/Pushes.antt =====
-- A push of gossip from one member to another (src/grpc.rs, `push_gossip` and the handler `gossip`).
use g_kms.Prelude.{
  ℕ, ◌≡◌, refl, true, false, ◌=?◌, if◌then◌else◌, is_empty, List, some, lookup, lookup-insert,
  insert, map, nat_eq, Bytes, ok, codes, arith,
}
use g_kms.I64.{sub_i64, le_i64}
use g_kms.State.{AppState, PeerInfo, is_live}
use g_kms.Gossip.{NodeInfo, node_info, gossip}
use g_kms.Auth.{Authority}
use g_kms.Auth.Metadata.{Formats}
use g_kms.Crypto.{Secp256k1, eth_address_from_pubkey, with_recovery, with_signing, ecies}
use g_kms.Crypto.Signing.{IsEcdsa}
use g_kms.Calls.{push_gossip, served_gossip}
use g_kms.Calls.Accepted.{IsAccepted, caller-IsAccepted}

is_live_now : (now : ℕ) (p : PeerInfo) → p.last_seen ≡ now → is_live now p ≡ true
unfolding is_live sub_i64 le_i64
is_live_now now p h = rw h (ground arith)

-- A push of a member that names its URL is taken: the other member knows it from then on, under the
-- address and the public key of its signature and no others that it may claim, as live at that
-- instant and with the epoch and the group public key that it reports, and knows the same of
-- everyone else as before.
pub push_gossip-is_live :
    (k : Secp256k1) (f : Formats) (a : Authority) (private_key pubkey sig : Bytes)
    (timestamp now : ℕ) (server_key : Bytes) (encode_addr : ℕ → Bytes)
    (self_url self_eth_addr self_group_pubkey : Bytes) (self_epoch : ℕ) (other : ℕ) (s : AppState)
    → IsEcdsa k
    → IsAccepted k f a private_key pubkey (codes "Gossip") sig timestamp now s
    → is_empty self_url ≡ false
    → (peers : List NodeInfo) × (s' : AppState) × (info : PeerInfo) × (push_gossip
          (with_signing k f)
          (with_recovery k a)
          (some (
            served_gossip
              (with_signing k f)
              (ecies k)
              server_key
              (with_recovery k a)
              now
              encode_addr))
          self_url
          self_eth_addr
          self_epoch
          self_group_pubkey
          sig
          timestamp
          s
        ≡ (ok peers, s'))
      × (info.grpc_url ≡ self_url)
      × (info.pubkey ≡ pubkey)
      × (info.epoch ≡ self_epoch)
      × (info.group_pubkey ≡ self_group_pubkey)
      × (is_live now info ≡ true)
      × (lookup other s'.peer_table ≡ (
          if eth_address_from_pubkey k pubkey =? other
          then some info
          else lookup other s.peer_table))
unfolding push_gossip gossip
push_gossip-is_live k f a private_key pubkey sig timestamp now server_key encode_addr self_url
      self_eth_addr self_group_pubkey self_epoch other s ecdsa accepted named =
    let info : PeerInfo = record {
      grpc_url = self_url;
      last_seen = now;
      pubkey = pubkey;
      epoch = self_epoch;
      group_pubkey = self_group_pubkey;
    } in
    let table = insert (eth_address_from_pubkey k pubkey) info s.peer_table in
    (
      map (node_info encode_addr) table,
      record s { peer_table = table },
      info,
      rw
          (caller-IsAccepted k f a private_key pubkey (codes "Gossip") sig timestamp now server_key
            s ecdsa accepted)
          (rw named refl),
      refl,
      refl,
      refl,
      refl,
      is_live_now now info refl,
      lookup-insert (eth_address_from_pubkey k pubkey) other info s.peer_table,
    )
