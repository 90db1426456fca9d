-- ===== src/Dkg/Tests.antt =====
-- A node of two runs sessions of a protocol whose messages are numbers (src/dkg.rs).
use g_kms.Prelude.{
  arith, ℕ, ◌≡◌, refl, true, [], ◌∷◌, List, none, some, Option, is_ok, Bytes, codes,
}
use g_kms.State.{AppState, Config, new_state}
use g_kms.Membership.{SessionPeer}
use g_kms.Dkg.{
  DkgError, Codec, Protocol, Round, Rounds, open_session, buffered, session_of, complete,
  await_round, deliver, run_session, first_round,
}
use g_kms.Dkg.Barrier.{await_round_iff}
use g_kms.Dkg.Buffer.{Arrival, deliver_all, message_of, deliver_all-latest}
use g_kms.Dkg.Exchange.{ids_of}
use g_kms.Dkg.Session.{IsRun, run_session-IsRun}
use g_kms.State.{ShardState}
use g_kms.Reshare.{store_share, new_shard, genesis_epoch, run_genesis}
use g_kms.Crypto.Bls.{BlsLibrary}
use g_kms.Dkg.Parts.{Participants, genesis_session}
use g_kms.Dkg.Genesis.{HasRun, run_genesis-HasRun}
use g_kms.Dkg.Retry.{run_session-retry}

abbrev config : Config
config = record {
  threshold = 2;
  total_nodes = 2;
  self_url = codes "a:1";
  seeds = [];
  sealed_share = none;
  sealed_share_path = none;
  timestamp_tolerance_secs = 300;
  app_id = codes "kms";
}

abbrev node : AppState
node = new_state config 10

abbrev genesis : Bytes
genesis = codes "genesis:kms"

abbrev number : Bytes → Option ℕ
number [] = none
number (n ∷ rest) = some n

abbrev numbers : Codec ℕ
numbers = record { ser = λ n. some (n ∷ []); de = number }

abbrev protocol : Protocol
protocol = record {
  Participant = ℕ;
  Broadcast1 = ℕ;
  Share1 = ℕ;
  Broadcast2 = ℕ;
  Broadcast3 = ℕ;
  Broadcast4 = ℕ;
  Output = ℕ;
  get_id = λ n. n;
  round1 = λ n. some (n, (2, 7) ∷ [], n);
  round2 = λ firsts shares n. some (n, n);
  round3 = λ seconds n. some (n, n);
  round4 = λ thirds n. some (n, n);
  round5 = λ fourths n. some n;
  output = λ n. some n;
  broadcast1 = numbers;
  share1 = numbers;
  broadcast2 = numbers;
  broadcast3 = numbers;
  broadcast4 = numbers;
  ecies_encrypt = λ key payload. some payload;
}

abbrev peers : List SessionPeer
peers = record { id = 2; grpc_url = codes "b:1"; pubkey = codes "pk"; epoch = 0 } ∷ []

-- A round in which the peer's message arrives while this node's is sent, and one in which none does.
abbrev answered : ℕ → Round
answered round = record {
  signed = true;
  while_sending = deliver genesis round 2 (5 ∷ []) (6 ∷ []);
  looks = [];
}

abbrev silent : Round
silent = record { signed = true; while_sending = λ s. s; looks = [] }

abbrev all_answered : Rounds
all_answered = record {
  first = answered 1;
  second = answered 2;
  third = answered 3;
  fourth = answered 4;
}

abbrev second_silent : Rounds
second_silent = record all_answered { second = silent; third = silent; fourth = silent }

run_session-IsRun_example :
    IsRun protocol genesis 1 peers all_answered node
      (run_session protocol genesis 1 peers all_answered node).2
      1
      (run_session protocol genesis 1 peers all_answered node).1
    × (session_of genesis (run_session protocol genesis 1 peers all_answered node).2 ≡ none)
unfolding run_session g_kms.Prelude.lookup g_kms.Prelude.insert deliver new_state
run_session-IsRun_example =
    run_session-IsRun protocol genesis 1 peers all_answered node
      (run_session protocol genesis 1 peers all_answered node).2 1
      (run_session protocol genesis 1 peers all_answered node).1 refl

run_session-retry_example :
    is_ok
      (await_round genesis 1
        (ids_of peers)
        []
        (run_session protocol genesis 1 peers second_silent node).2).0
    ≡ true
unfolding run_session g_kms.Prelude.lookup g_kms.Prelude.insert deliver new_state
run_session-retry_example =
    run_session-retry protocol genesis 1 1 1 ((2, 7) ∷ []) ((2, 5) ∷ [], (2, 6) ∷ []) peers
      second_silent node (first_round protocol genesis 1 1 ((2, 7) ∷ []) peers (answered 1) node).2
      (first_round protocol genesis 1 1 ((2, 7) ∷ []) peers (answered 1) node).1
      (DkgError.timed_out 2) refl refl (λ s q. q, tt) (λ s q. q, tt) (λ s q. q, tt) refl

await_round_iff_example :
    is_ok (await_round genesis 1 (2 ∷ []) ((λ s. s) ∷ []) node).0
    ≡ complete (2 ∷ []) (buffered genesis 1 (open_session genesis node))
await_round_iff_example = await_round_iff genesis 1 (2 ∷ []) ((λ s. s) ∷ []) node (λ s q. q, tt)

abbrev arrival : ℕ → Arrival
arrival n = record { session_id = genesis; round = 1; from_index = 2; broadcast = n ∷ []; p2p = [] }

deliver_all-latest_example :
    message_of 2 (buffered genesis 1 (deliver_all (arrival 5 ∷ arrival 6 ∷ []) node))
    ≡ some (6 ∷ [], [])
unfolding new_state
deliver_all-latest_example = deliver_all-latest (arrival 5 ∷ arrival 6 ∷ []) genesis 1 2 node

-- A threshold library that writes a scalar as one byte.
abbrev bls : BlsLibrary
bls = record {
  Scalar = ℕ;
  SecretKey = ℕ;
  PublicKey = ℕ;
  Signature = Bytes;
  SignatureShare = Bytes;
  scalar = λ n. n;
  split = λ threshold total master. none;
  sign = λ share msg. none;
  from_shares = λ ps. none;
  public_key = number;
  verify = λ sigma pk msg. true;
  signature_bytes = λ sigma. sigma;
  hkdf_32 = λ ikm info. ikm;
  secret_share_bytes = λ share. share.identifier ∷ share.value ∷ [];
  secret_share_of = λ b. none;
  signature_share_bytes = λ q. q;
  signature_share_of = λ b. some b;
}

abbrev participants : Participants bls protocol
participants = record {
  new_secret = λ id threshold total. some id;
  with_secret = λ id threshold total v dealers index. some id;
  new_refresh = λ id threshold total. some id;
  secret_share = λ n. n;
  public_bytes = λ n. codes "gpk";
}

abbrev sealed : ShardState → Bytes → Option Bytes
sealed shard pk = some shard.shard_bytes

-- The state after the genesis of the node.
abbrev formed : AppState
unfolding run_genesis
formed =
    (run_genesis sealed 1 2 2
      (genesis_session bls protocol participants 1 2 2 peers all_answered node) node).1

run_genesis-HasRun_example :
    (share : Bytes) × (pk : Bytes) × (left : AppState) × HasRun bls protocol participants genesis 1
      peers all_answered
      (some 1)
      node
      left
      share
      pk
    × (formed ≡ store_share sealed (new_shard 1 share genesis_epoch) pk left)
unfolding run_session g_kms.Prelude.lookup g_kms.Prelude.insert deliver new_state formed
run_genesis-HasRun_example =
    run_genesis-HasRun bls protocol participants sealed 1 2 2 peers all_answered node formed
      (λ q h. ground arith) refl
