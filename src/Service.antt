-- ===== src/Service.antt =====
-- src/grpc.rs: the handlers that serve partials and shares and take part in sessions, and src/init.rs,
-- `init_start_node`. ECIES and the signatures are libraries: the parameter `Ecies`.
pub mod Client
pub mod Partials
pub mod Shards
pub mod Initial
pub mod Derivation
pub mod Contribution
mod Tests
use g_kms.Prelude.{
  ℕ, suc, Bool, true, false, if◌then◌else◌, is_empty, is_some, get_elem?, List, [], ◌∷◌, Option,
  none, some, Bytes, Result, ok, err, ◌>>=◌, ◌>>◌, ensure, not, ok_or, map_err, codes,
}
use g_kms.Errors.{KmsError}
use g_kms.State.{AppState, ShardState}
use g_kms.Wire.{be_bytes, dprf_message, dprf_partial_signing_msg, shard_signing_msg}
use g_kms.Gossip.{AuthContext}
use g_kms.Auth.{Authority, AuthError, authenticate}
use g_kms.Membership.{position}
use g_kms.Reshare.{genesis_epoch}
use g_kms.Derive.{Bls}
use g_kms.Dkg.{deliver}

pub record Ecies : Type 0 where
  -- to a public key
  pub encrypt : Bytes → Bytes → Option Bytes
  -- with a private key
  pub decrypt : Bytes → Bytes → Option Bytes
  pub sign_bytes : Bytes → Bytes → Option Bytes

-- The statuses with which a call fails.
pub data Status : Type 0 where
  unauthenticated : Status
  permission_denied : Status
  failed_precondition : Status
  unavailable : Status
  unimplemented : Status
  internal : Status

abbrev pub auth_status : AuthError → Status
auth_status AuthError.unauthenticated = Status.unauthenticated
auth_status AuthError.permission_denied = Status.permission_denied

-- What comes with a request: the metadata, if they parse, and the clock when it arrives.
pub record Call : Type 0 where
  pub metadata : Option (Bytes × ℕ)
  pub now : ℕ

-- `[u8; 20]::from` of an address.
abbrev pub addr_bytes : ℕ → Bytes
addr_bytes = be_bytes 20

pub record EncryptedPartial : Type 0 where
  pub ciphertext : Bytes
  pub shard_index : ℕ
  pub epoch : ℕ
  pub signature : Bytes

pub record EncryptedShard : Type 0 where
  pub ciphertext : Bytes
  pub shard_index : ℕ
  pub signature : Bytes

-- `DkgRoundMsg` and `ReshareRequest` of proto/kms_cluster.proto.
pub record DkgRoundMsg : Type 0 where
  pub session_id : Bytes
  pub round : ℕ
  pub from_index : ℕ
  pub broadcast : Bytes
  pub p2p : Bytes

pub record ReshareRequest : Type 0 where
  pub session_id : Bytes
  pub recovering_id : ℕ
  pub dealer_ids : List ℕ
  pub epoch : ℕ

abbrev or_internal : {A : Type 0} → Option A → Result Status A
or_internal o = ok_or o Status.internal

-- `init_start_node`, for the shares that the master is split into, as bytes.
abbrev pub numbered : ℕ → List Bytes → List (ℕ × Bytes)
numbered i [] = []
numbered i (bytes ∷ shares) = (i, bytes) ∷ numbered (suc i) shares

abbrev pub with_shares : List (ℕ × Bytes) → AppState → Bool × AppState
with_shares [] s = (false, s)
with_shares ((own_index, own_bytes) ∷ rest) s = (
  true,
  record s {
    shard =
        some (record { shard_index = own_index; shard_bytes = own_bytes; epoch = genesis_epoch });
    pending_shards = some ((own_index, own_bytes) ∷ rest);
  },
)

unfoldable pub init_start_node : Option (List Bytes) → AppState → Bool × AppState
init_start_node none s = (false, s)
init_start_node (some shares) s = with_shares (numbered 1 shares) s

-- The node that serves: how it authenticates, its private key and the libraries.
module _ (x : Ecies) (private_key : Bytes) (a : Authority) where
  unfoldable pub caller : Call → Bytes → AppState → Result Status AuthContext
  unfolding authenticate
  caller call method s =
      map_err auth_status
        (authenticate a call.metadata method call.now s.config.timestamp_tolerance_secs)

  -- The handler `get_dprf_partial`, for the format of a partial.
  unfoldable pub get_dprf_partial :
      (b : Bls)
      → (b.Partial → Bytes)
      → Call
      → Bytes
      → Bytes
      → AppState
      → Result Status EncryptedPartial
  unfolding caller
  get_dprf_partial b partial_to_bytes call app_id material s = do
    ctx ← caller call (codes "GetDprfPartial") s
    shard ← ok_or s.shard Status.unavailable
    share ← or_internal (b.share_from_bytes shard.shard_bytes)
    partial ← or_internal (b.sign share (dprf_message app_id material))
    ciphertext ← or_internal (x.encrypt ctx.caller_pubkey (partial_to_bytes partial))
    signature ← or_internal (
        x.sign_bytes private_key (
          dprf_partial_signing_msg (addr_bytes ctx.caller_eth_addr) shard.shard_index shard.epoch
            ciphertext))
    ok (record {
      ciphertext = ciphertext;
      shard_index = shard.shard_index;
      epoch = shard.epoch;
      signature = signature;
    })

  -- A share, encrypted to a public key and signed for its address and the method.
  abbrev pub sealed_shard : Bytes → Bytes → ℕ → ℕ → Bytes → Result Status EncryptedShard
  sealed_shard method pubkey addr shard_index shard_bytes = do
    ciphertext ← or_internal (x.encrypt pubkey shard_bytes)
    signature ← or_internal (
        x.sign_bytes private_key
          (shard_signing_msg method (addr_bytes addr) shard_index ciphertext))
    ok (record { ciphertext = ciphertext; shard_index = shard_index; signature = signature })

  -- The handler `get_shard_contribution`.
  unfoldable pub get_shard_contribution : Call → AppState → Result Status EncryptedShard
  unfolding caller
  get_shard_contribution call s = do
    ctx ← caller call (codes "GetShardContribution") s
    shard ← ok_or s.shard Status.unavailable
    sealed_shard (codes "GetShardContribution") ctx.caller_pubkey ctx.caller_eth_addr
        shard.shard_index shard.shard_bytes

  -- `try_assign_init_shard`, for what `get_signer_addresses` answers.
  unfoldable pub assign_pending :
      Bytes → Result KmsError (List ℕ) → List (ℕ × Bytes) → Result Status EncryptedShard
  unfolding position
  assign_pending caller_pubkey signers shards = do
    node_list ← map_err (λ e. Status.internal) signers
    pos ← ok_or (position (a.eth_address caller_pubkey) 0 node_list) Status.permission_denied
    entry ← or_internal (get_elem? shards pos)
    sealed_shard (codes "RequestShard") caller_pubkey (a.eth_address caller_pubkey) entry.0 entry.1

  -- The rest of `request_shard`, when no initial share is there to be assigned: whether this node is
  -- an initialised member.
  abbrev pub no_init_shard : AppState → Result Status EncryptedShard
  no_init_shard s =
      if is_some s.shard then err Status.failed_precondition else err Status.unavailable

  abbrev pub init_or_status :
      Bytes
      → Result KmsError (List ℕ)
      → Option (List (ℕ × Bytes))
      → AppState
      → Result Status EncryptedShard
  init_or_status pubkey signers none s = no_init_shard s
  init_or_status pubkey signers (some shards) s = assign_pending pubkey signers shards

  -- The handler `request_shard`.
  unfoldable pub request_shard :
      Call → Result KmsError (List ℕ) → AppState → Result Status EncryptedShard
  unfolding caller assign_pending
  request_shard call signers s = do
    ctx ← caller call (codes "RequestShard") s
    init_or_status ctx.caller_pubkey signers s.pending_shards s

  -- The p2p payload of a round message, decrypted if there is one.
  abbrev pub opened_p2p : Bytes → Result Status Bytes
  opened_p2p p2p = if is_empty p2p then ok [] else or_internal (x.decrypt private_key p2p)

  abbrev pub buffer_opened :
      DkgRoundMsg → Result Status Bytes → AppState → Result Status (Unit {0}) × AppState
  buffer_opened msg (err e) s = (err e, s)
  buffer_opened msg (ok p2p) s =
      (ok tt, deliver msg.session_id msg.round msg.from_index msg.broadcast p2p s)

  -- The handler `dkg_round`.
  unfoldable pub dkg_round : Call → DkgRoundMsg → AppState → Result Status (Unit {0}) × AppState
  unfolding caller
  dkg_round call msg s =
      buffer_opened msg (caller call (codes "DkgRound") s >>= λ ctx. opened_p2p msg.p2p) s

  abbrev spawning :
      ReshareRequest → Result Status (Unit {0}) → Result Status (Unit {0}) × List ReshareRequest
  spawning req (err e) = (err e, [])
  spawning req (ok u) = (ok tt, req ∷ [])

  -- The handler `start_reshare`: its empty acknowledgement, and the request whose dealer's part it
  -- spawns.
  unfoldable pub start_reshare :
      Call → ReshareRequest → AppState → Result Status (Unit {0}) × List ReshareRequest
  unfolding caller
  start_reshare call req s = spawning req (
      caller call (codes "StartReshare") s >>= λ ctx.
      ensure (is_some s.shard) Status.failed_precondition)

-- `recover_shard_for_caller`.
unfoldable pub recover_shard_for_caller : Bytes → Result Status EncryptedShard
recover_shard_for_caller caller_pubkey = err Status.unimplemented
