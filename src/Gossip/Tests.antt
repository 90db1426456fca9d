-- ===== src/Gossip/Tests.antt =====
-- Gossip over a concrete table (src/grpc.rs).
use g_kms.Prelude.{ℕ, ◌≤◌, ◌≡◌, List, [], ◌∷◌, Option, none, some, lookup, nat_eq, Bytes, codes}
use g_kms.State.{PeerInfo}
use g_kms.Gossip.{NodeInfo, PeerTable, apply_push}
use g_kms.Gossip.Relay.{last_seen_of, epoch_known, seen_after, apply_push-direct}

abbrev decode : Bytes → Option ℕ
decode [] = none
decode (x ∷ xs) = some x

abbrev entry : PeerInfo
entry = record {
  grpc_url = codes "a:1";
  last_seen = 70;
  pubkey = codes "pk";
  epoch = 4;
  group_pubkey = codes "gpk";
}

abbrev table : PeerTable
table = (5, entry) ∷ []

-- An older view of the peer 5, and a peer 6 that is new.
abbrev rumours : List NodeInfo
rumours =
    record { grpc_url = codes "a:2"; eth_addr = 5 ∷ []; pubkey = []; epoch = 3; group_pubkey = [] }
    ∷ record {
      grpc_url = codes "b:1";
      eth_addr = 6 ∷ [];
      pubkey = codes "q";
      epoch = 4;
      group_pubkey = codes "gpk";
    }
    ∷ []

apply_push-direct_example :
    let table' = apply_push decode (codes "me:1") (codes "a:1") (some (100, rumours)) table in
    (last_seen_of (lookup 5 table') ≡ seen_after (codes "a:1") 100 (lookup 5 table))
    × (epoch_known (lookup 5 table) ≤ epoch_known (lookup 5 table'))
apply_push-direct_example =
    apply_push-direct decode (codes "me:1") (codes "a:1") 100 rumours 5 table
