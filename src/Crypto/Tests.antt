-- ===== src/Crypto/Tests.antt =====
-- A cluster of two over toy libraries: a signature is its key's number, a partial the value of its
-- share (src/crypto.rs, src/grpc.rs, src/init.rs).
use g_kms.Prelude.{
  ℕ, ◌≤◌, ◌≡◌, refl, sym, zero, suc, beq_bytes, beq_bytes_iff, List, [], ◌∷◌, ◌++◌, Option, none,
  some, Result, ok, err, ap, subst, true, lookup, insert, Bytes, codes, length, Distinct, arith,
  trim_0x, unwrap_or,
}
use g_kms.I64.{in_tolerance}
use g_kms.State.{AppState, Config, ShardState, new_state}
use g_kms.Wire.{dprf_message}
use g_kms.Gossip.{AuthContext}
use g_kms.Auth.{Authority, authenticate}
use g_kms.Auth.Metadata.{Formats, sign_request, request_metadata, parse_metadata, if_parsed}
use g_kms.Reshare.{ReshareError, Session, run_reshare_dealer, run_genesis}
use g_kms.Derive.Step.{Matched}
use g_kms.Derive.{Reply, DeriveTrace, collect_and_dprf}
use g_kms.Service.{Call, EncryptedPartial, get_dprf_partial}
use g_kms.Service.Client.{ask_partial}
use g_kms.Service.Derivation.{Peer}
use g_kms.Crypto.{
  Secp256k1, pubkey_from_private, sign_bytes, recover_pubkey, eth_address_from_pubkey,
  ecies_encrypt, ecies, with_recovery, with_signing,
}
use g_kms.Crypto.Signing.{IsEcdsa, recover_pubkey-sign_bytes}
use g_kms.Crypto.Members.{IsEcies, authenticate-sign_bytes, ask_partial-sign_bytes}
use g_kms.Crypto.Bls.{
  BlsLibrary, SecretKeyShare, threshold_bls, own_scalar, sigma_to_app_key, share_to_bytes,
  share_from_bytes, partial_to_bytes, gennaro_share_to_blsful, blsful_share_scalar, dprf_partial,
}
use g_kms.Crypto.Derivation.{
  IsIndex, IsThreshold, IsShare, replies, collect_and_dprf-sigma_to_app_key,
}
use g_kms.Dkg.{Codec, Protocol, Round, Rounds, deliver, run_session}
use g_kms.Dkg.Parts.{Participants, genesis_session, dealer_session, with_share, with_index}
use g_kms.Membership.{SessionPeer, position, resolve_peers}
use g_kms.Crypto.Shares.{Life, life-own_scalar}

abbrev zeros : ℕ → Bytes
zeros zero = []
zeros (suc n) = 0 ∷ zeros n

abbrev first_of : Bytes → Option ℕ
first_of [] = none
first_of (x ∷ xs) = some x

abbrev first_partial : List Bytes → Option Bytes
first_partial [] = none
first_partial (q ∷ ps) = some q

abbrev share_of : Bytes → Option (SecretKeyShare ℕ)
share_of (i ∷ v ∷ rest) = some (record { identifier = i; value = v })
share_of b = none

abbrev pub curve : Secp256k1
curve = record {
  SigningKey = ℕ;
  VerifyingKey = ℕ;
  Signature = ℕ;
  keccak256 = λ b. b;
  signing_key = first_of;
  verifying_key = λ key. key;
  sign_prehash = λ key hash. some (key, 1);
  signature_bytes = λ sig. sig ∷ zeros 63;
  signature_of = first_of;
  recover_from_prehash = λ hash sig id. some sig;
  encoded_point = λ key. 4 ∷ (zeros 12 ++ key ∷ []);
  address = λ b. unwrap_or 0 (first_of b);
  encrypt = λ pubkey plain. some plain;
  decrypt = λ key ciphertext. some ciphertext;
}

pub curve-IsEcdsa : IsEcdsa curve
curve-IsEcdsa = record {
  signature_length = λ sig. refl;
  signature_read = λ sig. refl;
  recovered = λ key hash sig id h. (ground arith, ground arith);
}

pub curve-IsEcies : IsEcies curve
curve-IsEcies private_key pubkey plain ciphertext own h = sym h

recover_pubkey-sign_bytes_example :
    (length (10 ∷ (zeros 63 ++ 1 ∷ [])) ≡ 65)
    × (recover_pubkey curve (codes "m") (10 ∷ (zeros 63 ++ 1 ∷ []))
        ≡ pubkey_from_private curve (10 ∷ []))
unfolding sign_bytes
recover_pubkey-sign_bytes_example =
    recover_pubkey-sign_bytes curve curve-IsEcdsa (10 ∷ []) (codes "m") (10 ∷ (zeros 63 ++ 1 ∷ []))
      refl

abbrev pub members : Authority
members = record {
  recover_pubkey = λ message sig. none;
  eth_address = λ pubkey. 0;
  decimal = λ n. codes "1000";
  node_list = λ addr. ok (10 ∷ 20 ∷ []);
  require_verified = λ addr. ok tt;
}

abbrev pub formats : Formats
formats = record {
  to_str = λ t. some t;
  hex_decode = λ t. some t;
  hex_encode = λ b. b;
  parse_i64 = λ t. some 1000;
  sign_bytes = λ key message. none;
}

abbrev pub own_key : Bytes
own_key = 20 ∷ []

abbrev pub own_pubkey : Bytes
own_pubkey = 4 ∷ (zeros 12 ++ own_key)

abbrev pub own_sig : Bytes
own_sig = 20 ∷ (zeros 63 ++ 1 ∷ [])

pub own_known : pubkey_from_private curve own_key ≡ ok own_pubkey
unfolding pubkey_from_private
own_known = refl

authenticate-sign_bytes_example :
    authenticate
      (with_recovery curve members)
      (if_parsed (
        parse_metadata (with_signing curve formats) (with_recovery curve members) (
          request_metadata
            (with_signing curve formats)
            (with_recovery curve members)
            own_sig
            1000)))
      (codes "Gossip")
      1010
      300
    ≡ ok (record {
      caller_pubkey = own_pubkey;
      caller_eth_addr = eth_address_from_pubkey curve own_pubkey;
    })
unfolding sign_bytes pubkey_from_private eth_address_from_pubkey sign_request in_tolerance trim_0x
authenticate-sign_bytes_example =
    authenticate-sign_bytes curve curve-IsEcdsa own_key own_pubkey refl formats members
      (codes "Gossip") own_sig 1000 1010 300 refl (refl, refl) (refl, refl) refl
      (10 ∷ 20 ∷ [], refl, refl, refl)

abbrev bls : BlsLibrary
bls = record {
  Scalar = ℕ;
  SecretKey = ℕ;
  PublicKey = ℕ;
  Signature = Bytes;
  SignatureShare = Bytes;
  scalar = λ n. n;
  split = λ threshold total master. none;
  sign = λ share msg. some (share.value ∷ msg);
  from_shares = first_partial;
  public_key = first_of;
  verify = λ sigma pk msg. beq_bytes sigma (pk ∷ msg);
  signature_bytes = λ sigma. sigma;
  hkdf_32 = λ ikm info. ikm ++ info;
  secret_share_bytes = λ share. share.identifier ∷ share.value ∷ [];
  secret_share_of = λ b. share_of b;
  signature_share_bytes = λ q. q;
  signature_share_of = λ b. some b;
}

-- The polynomial of every epoch is the constant 7.
abbrev seven : ℕ → ℕ → ℕ
seven e i = 7

combined :
    (msg : Bytes) (e : ℕ) (is : List ℕ) (ps : List Bytes)
    → Distinct is
    → 2 ≤ length is
    → Matched
        (λ i q. IsIndex i × (bls.sign (gennaro_share_to_blsful bls i (seven e i)) msg ≡ some q))
        is
        ps
    → first_partial ps ≡ some (7 ∷ msg)
unfolding gennaro_share_to_blsful
combined msg e [] [] d h m = absurd (omega arith)
combined msg e [] (q ∷ ps) d h m = absurd m
combined msg e (i ∷ is) [] d h m = absurd m
combined msg e (i ∷ is) (q ∷ ps) d h m = sym m.0.1

bls-IsThreshold : IsThreshold bls seven 2 (7 ∷ []) (λ msg. 7 ∷ msg)
unfolding gennaro_share_to_blsful
bls-IsThreshold = record {
  share_read = λ share. refl;
  partial_read = λ q. refl;
  evaluates = λ e i msg h. (7 ∷ msg, refl);
  combines = combined;
  group_pubkey = 7;
  pk_read = refl;
  verifies = λ msg. (beq_bytes_iff (7 ∷ msg) (7 ∷ msg)).1 refl;
}

abbrev config : Config
config = record {
  threshold = 2;
  total_nodes = 2;
  self_url = codes "a:1";
  seeds = [];
  sealed_share = none;
  sealed_share_path = none;
  timestamp_tolerance_secs = 300;
  app_id = codes "kms";
}

abbrev share : ℕ → ShardState
share i = record { shard_index = i; shard_bytes = i ∷ 7 ∷ []; epoch = 3 }

abbrev call : Call
call = record { metadata = some (own_sig, 1000); now = 1010 }

abbrev pub server_pubkey : Bytes
server_pubkey = 4 ∷ (zeros 12 ++ 10 ∷ [])

abbrev pub server : AppState
server = record (new_state config 10) { shard = some (share 1) }

abbrev peer : Peer
peer = record {
  private_key = 10 ∷ [];
  pubkey = server_pubkey;
  authority = with_recovery curve members;
  call = call;
  state = server;
}

abbrev msg : Bytes
msg = dprf_message (codes "app") (codes "m")

abbrev resp : EncryptedPartial
resp = record {
  ciphertext = 7 ∷ msg;
  shard_index = 1;
  epoch = 3;
  signature = 10 ∷ (zeros 63 ++ 1 ∷ []);
}

abbrev context : AuthContext
context = record { caller_pubkey = own_pubkey; caller_eth_addr = 20 }

ask_partial-sign_bytes_example :
    (own : ShardState) × (s : SecretKeyShare ℕ) × (partial : Bytes) × (server.shard ≡ some own)
    × ((threshold_bls bls).share_from_bytes own.shard_bytes ≡ some s)
    × ((threshold_bls bls).sign s msg ≡ some partial)
    × (ask_partial (ecies curve) own_key (with_recovery curve members) 20 (ok resp)
        ≡ Reply.answered own.shard_index partial own.epoch)
unfolding pubkey_from_private eth_address_from_pubkey get_dprf_partial in_tolerance new_state
    share_from_bytes dprf_partial ecies_encrypt recover_pubkey sign_bytes
ask_partial-sign_bytes_example =
    ask_partial-sign_bytes curve (10 ∷ []) server_pubkey own_key members members (threshold_bls bls)
      (λ q. q) call (codes "app") (codes "m") server context resp curve-IsEcdsa curve-IsEcies refl
      refl (10 ∷ 20 ∷ [], refl, refl, refl) refl refl

-- One peer is down, and the other serves.
abbrev peers : List (Option (Peer × ShardState))
peers = none ∷ some (peer, share 1) ∷ []

collect_and_dprf-sigma_to_app_key_example :
    (trace : DeriveTrace) × (collect_and_dprf
        (threshold_bls bls)
        (some (share 2))
        2
        (some (7 ∷ []))
        (some own_sig)
        (codes "app")
        (codes "m")
        (replies bls seven 2
          (7 ∷ [])
          (λ m. 7 ∷ m)
          bls-IsThreshold
          curve
          curve-IsEcdsa
          curve-IsEcies
          own_key
          own_pubkey
          own_known
          members
          (codes "app")
          (codes "m")
          peers)
      ≡ ok (sigma_to_app_key bls (7 ∷ msg), trace))
unfolding pubkey_from_private eth_address_from_pubkey get_dprf_partial in_tolerance new_state
    share_from_bytes share_to_bytes gennaro_share_to_blsful dprf_partial ecies_encrypt
    recover_pubkey sign_bytes partial_to_bytes
collect_and_dprf-sigma_to_app_key_example =
    collect_and_dprf-sigma_to_app_key bls seven 2 (7 ∷ []) (λ m. 7 ∷ m) bls-IsThreshold curve
      curve-IsEcdsa curve-IsEcies own_key own_pubkey own_known members (codes "app") (codes "m")
      (share 2) own_sig peers ((omega arith, omega arith), refl)
      (
        tt,
        (
          (
            refl,
            (10 ∷ 20 ∷ [], refl, refl, refl),
            refl,
            refl,
            ((omega arith, omega arith), refl),
            resp,
            refl,
          ),
          tt,
        ),
      )
      (refl, (refl, tt)) (omega arith)

-- A protocol that sends its node's number, of which the output is the secret 7.
abbrev numbers : Codec ℕ
numbers = record { ser = λ n. some (n ∷ []); de = first_of }

abbrev protocol : Protocol
protocol = record {
  Participant = ℕ;
  Broadcast1 = ℕ;
  Share1 = ℕ;
  Broadcast2 = ℕ;
  Broadcast3 = ℕ;
  Broadcast4 = ℕ;
  Output = ℕ;
  get_id = λ n. n;
  round1 = λ n. some (n, [], n);
  round2 = λ firsts shares n. some (n, n);
  round3 = λ seconds n. some (n, n);
  round4 = λ thirds n. some (n, n);
  round5 = λ fourths n. some n;
  output = λ n. some 7;
  broadcast1 = numbers;
  share1 = numbers;
  broadcast2 = numbers;
  broadcast3 = numbers;
  broadcast4 = numbers;
  ecies_encrypt = λ key payload. some payload;
}

abbrev participants : Participants bls protocol
participants = record {
  new_secret = λ id threshold total. some id;
  with_secret = λ id threshold total v dealers index. some id;
  new_refresh = λ id threshold total. some id;
  secret_share = λ n. n;
  public_bytes = λ n. n ∷ [];
}

-- A round without peers: what is buffered of it arrives while nothing is sent.
abbrev alone : Bytes → ℕ → Round
alone session_id round = record {
  signed = true;
  while_sending = deliver session_id round 2 (2 ∷ []) (2 ∷ []);
  looks = [];
}

abbrev rounds : Bytes → Rounds
rounds session_id = record {
  first = alone session_id 1;
  second = alone session_id 2;
  third = alone session_id 3;
  fourth = alone session_id 4;
}

abbrev start : AppState
start = new_state config 20

abbrev genesis_of_two : Session
genesis_of_two =
    genesis_session bls protocol participants 2 2 2 [] (rounds (codes "genesis:kms")) start

abbrev formed : AppState
formed = (run_genesis (λ shard pk. none) 2 2 2 genesis_of_two start).1

-- The node then deals, alone, in a refresh to the epoch 2.
abbrev refresh_of_two : Session
refresh_of_two =
    dealer_session bls protocol participants (codes "reshare") (10 ∷ 20 ∷ []) 0 (2 ∷ []) 2
      (rounds (codes "reshare")) formed

abbrev refreshed : AppState
refreshed =
    (run_reshare_dealer (λ shard pk. none) (10 ∷ 20 ∷ []) 0 (2 ∷ []) 2 refresh_of_two formed).1

abbrev prepared : Result ReshareError (ℕ × List SessionPeer) → ℕ × List SessionPeer
prepared (ok t) = t
prepared (err e) = (0, [])

abbrev stored : ShardState
stored = record (share 2) { epoch = 2 }

life-own_scalar_example :
    IsShare bls seven stored
    × (own_scalar bls stored ≡ ok 7)
    × (with_share bls protocol participants
          (codes "reshare")
          2
          []
          (2 ∷ [])
          (rounds (codes "reshare"))
          refreshed
          refreshed.shard
        ≡ with_index bls protocol participants
            (codes "reshare")
            2
            []
            (2 ∷ [])
            (rounds (codes "reshare"))
            refreshed
            7
            (position 2 0 (2 ∷ [])))
unfolding run_genesis run_reshare_dealer new_state run_session deliver lookup insert share_to_bytes
    gennaro_share_to_blsful resolve_peers share_from_bytes blsful_share_scalar position
life-own_scalar_example =
    life-own_scalar bls protocol participants seven (λ shard pk. none) (λ s. refl) start refreshed
      stored (codes "reshare") 2 [] (2 ∷ []) (rounds (codes "reshare"))
      (Life.next start formed refreshed
        (Life.genesis 2 2 2 [] (rounds (codes "genesis:kms")) start (omega arith, omega arith)
          (λ output h. ground arith) (Life.other start (genesis_of_two.meanwhile start) refl))
        (Life.dealing (codes "reshare") (10 ∷ 20 ∷ []) 0 (2 ∷ []) 2 (rounds (codes "reshare"))
          formed (λ own_id peers h. let e : 2 ≡ own_id = ground arith in (omega arith, omega arith))
          (λ own_id peers o index h held output done.
            subst
              (λ (t : ℕ × List SessionPeer).
                (run_session protocol (codes "reshare") t.0 t.1 (rounds (codes "reshare")) formed).0
                  ≡ ok output
                → output ≡ 7)
              (ap prepared h) (λ d. ground arith) done)
          (Life.other formed (refresh_of_two.meanwhile formed) refl)))
      tt refl
