-- ===== src/Http.antt =====
-- src/server.rs: the HTTP handlers. Key recovery, hex and ECIES are libraries: the parameter `Web`.
-- What the chain reader and the attestation gate answer, and what other tasks do to the state while a
-- handler waits, are arguments of the request. A response is its status code and its body.
pub mod Keys
pub mod Refreshes
pub mod Peers
pub mod Monitoring
pub mod Counting
mod Tests
use g_kms.Prelude.{
  is_ok, ℕ, ◌+◌, ◌-◌, ◌%◌, ◌^◌, ◌==◌, Bool, true, false, ◌||◌, if◌then◌else◌, is_empty, is_some,
  length, take, get_elem?, not, map, List, [], ◌∷◌, ◌++◌, Option, none, some, Bytes, codes, trim_0x,
  Result, ok, err, ◌>>=◌, ◌>>◌, ensure, ok_or, map_err, is_ok,
}
use g_kms.Errors.{KmsError, Refusal}
use g_kms.State.{AppState, PeerInfo, ShardState, is_live}
use g_kms.I64.{in_tolerance}
use g_kms.Chain.{contains}
use g_kms.Verifier.{Gate}
use g_kms.Derive.{Bls, Reply, DeriveTrace, collect_and_dprf}
use g_kms.Reshare.{ReshareError, Session, trigger_refresh}
use g_kms.Metrics.{ClusterView, cluster_view}
use g_kms.Metrics.Registry.{Metrics}
use g_kms.Metrics.Counters.{inc, record_outcome}

pub record Web : Type 0 where
  pub hex_decode : Bytes → Option Bytes
  pub hex_encode : Bytes → Bytes
  -- the decimal texts of an i64 and of a length
  pub decimal_i64 : ℕ → Bytes
  pub decimal : ℕ → Bytes
  -- the address that signed a message (hashed by Keccak-256), from r ‖ s and the recovery id
  pub recover_address : Bytes → Bytes → ℕ → Option ℕ
  pub ecies_encrypt : Bytes → Bytes → Option Bytes

pub record Response (B : Type 0) : Type 0 where
  pub status_code : ℕ
  pub body : B

abbrev pub response : {B : Type 0} → ℕ → B → Response B
response code b = record { status_code = code; body = b }

-- The v byte of a signature, normalized or Ethereum-style.
abbrev pub recovery_id : ℕ → Option ℕ
recovery_id v =
    if v == 0 || v == 1 then some v else (if v == 27 || v == 28 then some (v - 27) else none)

pub record AppKeyRequest : Type 0 where
  pub app_id : Bytes
  -- an i64
  pub timestamp : ℕ
  pub pubkey : Bytes
  pub signature : Bytes
  pub material : Bytes

-- What the request meets: the clock, the chain reader and the attestation gate for an app and a signer,
-- other tasks until the derivation and during it, the outcome of signing the requests to the peers,
-- and their replies.
pub record KeyWorld : Type 0 where
  pub now : ℕ
  pub signers : Bytes → ℕ → Result KmsError (List ℕ)
  pub require_verified : Bytes → ℕ → Gate
  pub while_checking : AppState → AppState
  pub request_sig : Option Bytes
  pub replies : List Reply
  pub while_collecting : AppState → AppState

-- Where a derivation is counted.
pub data Bucket : Type 0 where
  issued : Bucket
  unauthorized : Bucket
  bad_request : Bucket
  not_ready : Bucket
  error : Bucket

unfoldable pub classify_app_key : {A : Type 0} → Result KmsError A → Bucket
classify_app_key (ok a) = Bucket.issued
classify_app_key (err KmsError.invalid_timestamp) = Bucket.unauthorized
classify_app_key (err KmsError.invalid_signature) = Bucket.unauthorized
classify_app_key (err KmsError.app_not_found) = Bucket.unauthorized
classify_app_key (err KmsError.bad_request) = Bucket.bad_request
classify_app_key (err (KmsError.not_attested r)) = Bucket.unauthorized
classify_app_key (err KmsError.config_error) = Bucket.not_ready
classify_app_key (err KmsError.chain_error) = Bucket.error
classify_app_key (err KmsError.crypto_error) = Bucket.error

abbrev pub count_key : Bucket → Metrics → Metrics
count_key Bucket.issued c = record c { appkey_ok = inc c.appkey_ok }
count_key Bucket.unauthorized c = record c { appkey_unauthorized = inc c.appkey_unauthorized }
count_key Bucket.bad_request c = record c { appkey_bad_request = inc c.appkey_bad_request }
count_key Bucket.not_ready c = record c { appkey_not_ready = inc c.appkey_not_ready }
count_key Bucket.error c = record c { appkey_error = inc c.appkey_error }

pub record RefreshRequest : Type 0 where
  -- an i64
  pub timestamp : ℕ
  pub signature : Bytes

-- What a refresh meets: the clock, the owner that the chain names, the node list when the refresh is
-- prepared and when this node's part starts, other tasks between, and the session.
pub record RefreshWorld : Type 0 where
  pub now : ℕ
  pub owner : Result KmsError ℕ
  pub node_list : List ℕ
  pub prepared : ℕ
  pub between : AppState → AppState
  pub node_list' : List ℕ
  pub session : Session

unfoldable pub count_refresh : Result ReshareError (Unit {0}) → Metrics → Metrics
unfolding record_outcome
count_refresh r c =
    let (succeeded, failed) = record_outcome r (c.refresh_ok, c.refresh_fail) in
    record c { refresh_ok = succeeded; refresh_fail = failed }

module _ (w : Web) where
  -- The text that `personal_sign` signs.
  abbrev pub eip191_text : Bytes → Bytes
  eip191_text message =
      25 ∷ codes "Ethereum Signed Message:" ++ 10 ∷ (w.decimal (length message) ++ message)

  -- `recover_eip191_address`.
  unfoldable pub recover_eip191_address : Bytes → Bytes → Result KmsError ℕ
  recover_eip191_address message signature = do
    sig ← ok_or (w.hex_decode (trim_0x signature)) KmsError.invalid_signature
    ensure (length sig == 65) KmsError.invalid_signature
    v ← ok_or (get_elem? sig 64) KmsError.invalid_signature
    rid ← ok_or (recovery_id v) KmsError.invalid_signature
    ok_or (w.recover_address (eip191_text message) (take 64 sig) rid) KmsError.invalid_signature

  abbrev pub key_message : ℕ → Bytes
  key_message timestamp = codes "GetSecretResource:" ++ w.decimal_i64 timestamp

  abbrev pub refresh_message : ℕ → Bytes
  refresh_message timestamp = codes "Refresh:" ++ w.decimal_i64 timestamp

  -- `app_key_inner`: the body of the response, with the trace.
  unfoldable pub app_key_inner :
      (b : Bls) → AppKeyRequest → KeyWorld → AppState → Result KmsError (Bytes × DeriveTrace)
  unfolding recover_eip191_address
  app_key_inner b req env s = do
    ensure (in_tolerance env.now req.timestamp s.config.timestamp_tolerance_secs)
        KmsError.invalid_timestamp
    addr ← recover_eip191_address (key_message req.timestamp) req.signature
    signer_addresses ← env.signers req.app_id addr
    ensure (not (is_empty signer_addresses)) KmsError.app_not_found
    ensure (contains addr signer_addresses) KmsError.invalid_signature
    map_err KmsError.not_attested (env.require_verified req.app_id addr)
    material ← ok_or (w.hex_decode (trim_0x req.material)) KmsError.bad_request
    derived ←
        collect_and_dprf b (env.while_checking s).shard s.config.threshold
          (env.while_collecting (env.while_checking s)).group_pubkey env.request_sig req.app_id
          material env.replies
    pubkey ← ok_or (w.hex_decode (trim_0x req.pubkey)) KmsError.bad_request
    ciphertext ← ok_or (w.ecies_encrypt pubkey derived.0) KmsError.bad_request
    ok (w.hex_encode ciphertext, derived.1)

  -- `handle_app_key`, with the counters that it moves.
  unfoldable pub handle_app_key :
      (b : Bls) → AppKeyRequest → KeyWorld → AppState → Metrics → Result KmsError Bytes × Metrics
  unfolding app_key_inner classify_app_key
  handle_app_key b req env s counters =
      let r = app_key_inner b req env s in
      (r >>= λ x. ok x.0, count_key (classify_app_key r) counters)

  abbrev pub is_owner : RefreshRequest → RefreshWorld → AppState → Result KmsError (Unit {0})
  is_owner req env s = do
    ensure (in_tolerance env.now req.timestamp s.config.timestamp_tolerance_secs)
        KmsError.invalid_timestamp
    recovered ← recover_eip191_address (refresh_message req.timestamp) req.signature
    owner ← env.owner
    ensure (recovered == owner) KmsError.invalid_signature

  abbrev pub refreshed :
      Metrics → Result ReshareError (Unit {0}) × AppState → Result KmsError ℕ × AppState × Metrics
  refreshed counters (r, s) = (ok (if is_ok r then 200 else 500), s, count_refresh r counters)

  -- `handle_refresh`, for how the node seals its share: the status code of its response, the state and
  -- the counters.
  unfoldable pub handle_refresh :
      (ShardState → Bytes → Option Bytes)
      → RefreshRequest
      → RefreshWorld
      → Metrics
      → AppState
      → Result KmsError ℕ × AppState × Metrics
  unfolding recover_eip191_address trigger_refresh
  handle_refresh seal req env counters s = elim (is_owner req env s) [
    | err e ↦ (err e, s, counters)
    | ok u ↦
        refreshed counters
          (trigger_refresh seal env.node_list env.prepared env.between env.node_list' env.session s)
  ]

-- `handle_health`, `handle_ready` and `handle_sealed_share`.
unfoldable pub handle_health : Response Bytes
handle_health = response 200 (codes "ok")

unfoldable pub handle_ready : AppState → Response Bytes
handle_ready s =
    if is_some s.shard
    then (if is_some s.group_pubkey
        then response 200 (codes "ready")
        else response 503 (codes "no group public key"))
    else response 503 (codes "no share")

abbrev pub sealed_response : Option Bytes → Response Bytes
sealed_response none = response 404 (codes "no sealed share yet")
sealed_response (some b64) = response 200 b64

unfoldable pub handle_sealed_share : AppState → Response Bytes
handle_sealed_share s = sealed_response s.sealed_share

-- One entry of the list of peers.
pub record PeerEntry : Type 0 where
  pub eth_addr : ℕ
  pub grpc_url : Bytes
  pub epoch : ℕ
  pub live : Bool
  -- an i64
  pub last_seen : ℕ
  pub group_pubkey : Option Bytes

abbrev pub reported : Bytes → Option Bytes
reported pk = if is_empty pk then none else some pk

abbrev pub peer_entry : ℕ → ℕ × PeerInfo → PeerEntry
peer_entry now (addr, p) = record {
  eth_addr = addr;
  grpc_url = p.grpc_url;
  epoch = p.epoch;
  live = is_live now p;
  last_seen = p.last_seen;
  group_pubkey = reported p.group_pubkey;
}

-- `handle_peers`, before it is written as JSON: the view, of which every field but two is shown, and
-- the peers, which are read after it.
unfoldable pub handle_peers :
    ℕ → ℕ → (AppState → AppState) → AppState → ClusterView × List PeerEntry
unfolding cluster_view
handle_peers now viewed between s =
    (cluster_view viewed s, map (peer_entry now) (between s).peer_table)
