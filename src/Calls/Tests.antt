-- ===== src/Calls/Tests.antt =====
-- Node 20 calls node 10, over the toy libraries (src/grpc.rs).
use g_kms.Prelude.{
  ◌≡◌, refl, true, List, [], ◌∷◌, none, some, ok, codes, lookup, nat_eq, bytes_eq, Bytes, trim_0x,
  ◌=?◌, if◌then◌else◌,
}
use g_kms.I64.{in_tolerance}
use g_kms.State.{AppState, PeerInfo, is_live, new_state}
use g_kms.Gossip.{NodeInfo}
use g_kms.Dkg.{deliver, buffered}
use g_kms.Dkg.Buffer.{message_of}
use g_kms.Reshare.{Session}
use g_kms.Metrics.Registry.{new_metrics}
use g_kms.Service.{ReshareRequest}
use g_kms.Auth.Metadata.{sign_request}
use g_kms.Crypto.{
  pubkey_from_private, sign_bytes, eth_address_from_pubkey, ecies_encrypt, with_recovery,
  with_signing, ecies,
}
use g_kms.Crypto.Tests.{
  curve, curve-IsEcdsa, curve-IsEcies, members, formats, own_key, own_pubkey, own_sig, own_known,
  server, server_pubkey,
}
use g_kms.Calls.{
  send_dkg_round, served_dkg_round, send_start_reshare, served_start_reshare, push_gossip,
  served_gossip, deal_in_background,
}
use g_kms.Calls.Accepted.{IsAccepted}
use g_kms.Calls.Rounds.{send_dkg_round-deliver}
use g_kms.Calls.Pushes.{push_gossip-is_live}
use g_kms.Calls.Reshares.{IsDealt, send_start_reshare-IsDealt}

accepted :
    (method : Bytes)
    → IsAccepted curve formats members own_key own_pubkey method own_sig 1000 1010 server
unfolding sign_bytes sign_request eth_address_from_pubkey in_tolerance trim_0x new_state
accepted method =
    (own_known, refl, (refl, refl), (refl, refl), refl, (10 ∷ 20 ∷ [], refl, refl, refl))

send_dkg_round-deliver_example :
    (send_dkg_round
        (with_signing curve formats)
        (with_recovery curve members)
        (some (
          served_dkg_round
            (with_signing curve formats)
            (ecies curve)
            (10 ∷ [])
            (with_recovery curve members)
            1010))
        (codes "genesis")
        1
        2
        (codes "commitments")
        (codes "share")
        own_sig
        1000
        server
      ≡ (ok tt, deliver (codes "genesis") 1 2 (codes "commitments") (codes "share") server))
    × (message_of 2 (
          buffered
            (codes "genesis")
            1
            (deliver (codes "genesis") 1 2 (codes "commitments") (codes "share") server))
        ≡ some (codes "commitments", codes "share"))
unfolding pubkey_from_private ecies_encrypt
send_dkg_round-deliver_example =
    send_dkg_round-deliver curve formats members own_key own_pubkey own_sig 1000 1010 (10 ∷ [])
      server_pubkey (codes "genesis") 1 2 (codes "commitments") (codes "share") (codes "share")
      server curve-IsEcdsa curve-IsEcies (accepted (codes "DkgRound")) refl refl refl

push_gossip-is_live_example :
    (peers : List NodeInfo) × (s' : AppState) × (info : PeerInfo) × (push_gossip
        (with_signing curve formats)
        (with_recovery curve members)
        (some (
          served_gossip
            (with_signing curve formats)
            (ecies curve)
            (10 ∷ [])
            (with_recovery curve members)
            1010
            (λ n. n ∷ [])))
        (codes "b:1")
        (codes "14")
        3
        (7 ∷ [])
        own_sig
        1000
        server
      ≡ (ok peers, s'))
    × (info.grpc_url ≡ codes "b:1")
    × (info.pubkey ≡ own_pubkey)
    × (info.epoch ≡ 3)
    × (info.group_pubkey ≡ 7 ∷ [])
    × (is_live 1010 info ≡ true)
    × (lookup 20 s'.peer_table ≡ (
        if eth_address_from_pubkey curve own_pubkey =? 20
        then some info
        else lookup 20 server.peer_table))
push_gossip-is_live_example =
    push_gossip-is_live curve formats members own_key own_pubkey own_sig 1000 1010 (10 ∷ [])
      (λ n. n ∷ []) (codes "b:1") (codes "14") (7 ∷ []) 3 20 server curve-IsEcdsa
      (accepted (codes "Gossip")) refl

abbrev session : Session
session = record { meanwhile = λ s. s; keys = some (1 ∷ 9 ∷ [], 7 ∷ []) }

abbrev request : ReshareRequest
request = record { session_id = codes "reshare"; recovering_id = 2; dealer_ids = 1 ∷ []; epoch = 4 }

send_start_reshare-IsDealt_example :
    (send_start_reshare
        (with_signing curve formats)
        (with_recovery curve members)
        (some (
          served_start_reshare
            (with_signing curve formats)
            (ecies curve)
            (10 ∷ [])
            (with_recovery curve members)
            1010))
        (codes "reshare")
        2
        (1 ∷ [])
        4
        own_sig
        1000
        (server, [])
      ≡ (ok tt, (server, request ∷ [])))
    × IsDealt
        (10 ∷ 20 ∷ [])
        session
        request
        new_metrics
        server
        (deal_in_background (λ shard pk. none) (10 ∷ 20 ∷ []) session request new_metrics server)
send_start_reshare-IsDealt_example =
    send_start_reshare-IsDealt curve formats members own_key own_pubkey own_sig 1000 1010 (10 ∷ [])
      (λ shard pk. none) (10 ∷ 20 ∷ []) session request new_metrics server [] curve-IsEcdsa
      (accepted (codes "StartReshare")) refl
