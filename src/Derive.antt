-- ===== src/Derive.antt =====
-- src/grpc.rs, `collect_and_dprf`: partials are gathered in the order in which the peers answer,
-- until one epoch has enough of them, and combined. The group arithmetic, its byte formats and its
-- key derivation (blsful, hkdf: `crypto.rs` only calls them) are the parameter `Bls`.
pub mod Step
pub mod Collect
pub mod Enough
pub mod Key
pub mod Safe
pub mod Own
pub mod Live
mod Tests
use g_kms.Prelude.{
  ℕ, Bool, true, false, ◌||◌, leb, mem, if◌then◌else◌, is_some, length, List, [], ◌∷◌, ◌++◌, Option,
  none, some, Map, lookup, insert, get_or_default, nat_eq, Bytes, Result, ok, err, ◌>>=◌, ◌>>◌,
  ok_or, sort, suc, ◌+◌,
}
use g_kms.Errors.{KmsError}
use g_kms.State.{ShardState}
use g_kms.Wire.{dprf_message}

pub record Bls : Type 1 where
  pub Share : Type 0
  pub Partial : Type 0
  pub Sigma : Type 0
  pub share_from_bytes : Bytes → Option Share
  -- `dprf_partial`
  pub sign : Share → Bytes → Option Partial
  pub partial_from_bytes : Bytes → Option Partial
  -- `dprf_sigma`
  pub combine : List Partial → Option Sigma
  -- `dprf_verify` of a signature, against a public key's bytes and a message
  pub verify : Sigma → Bytes → Bytes → Bool
  -- `sigma_to_app_key`
  pub app_key : Sigma → Bytes

-- What `get_dprf_partial` returns for a peer.
pub data Reply : Type 0 where
  failed : Reply
  answered : ℕ → Bytes → ℕ → Reply

pub record Collected (P : Type 0) : Type 0 where
  pub buckets : Map ℕ (List P)
  pub seen : Map ℕ (List ℕ)
  pub contributors : Map ℕ (List ℕ)
  pub ready : Option ℕ
  pub malformed : ℕ
  pub peer_errors : ℕ

pub record DeriveTrace : Type 0 where
  pub coordinator : ℕ
  pub epoch : ℕ
  pub servers : List ℕ

-- The entry of an epoch, empty if it has none.
abbrev pub at_epoch {ℓ} : {A : Type ℓ} → ℕ → Map ℕ (List A) → List A
at_epoch e m = get_or_default [] e m

module _ {P : Type 0} where
  -- A first partial from an index at an epoch goes into the epoch's bucket.
  unfoldable pub add_partial : ℕ → ℕ → ℕ → P → Collected P → Collected P
  add_partial threshold idx epoch p c =
      let bucket = at_epoch epoch c.buckets ++ p ∷ [] in
      record c {
        buckets = insert epoch bucket c.buckets;
        seen = insert epoch (idx ∷ at_epoch epoch c.seen) c.seen;
        contributors = insert epoch (at_epoch epoch c.contributors ++ idx ∷ []) c.contributors;
        ready = if leb threshold (length bucket) then some epoch else c.ready;
      }

  -- An answer that does not parse is marked as seen, and counted.
  unfoldable pub discard : ℕ → ℕ → Collected P → Collected P
  discard idx epoch c = record c {
    seen = insert epoch (idx ∷ at_epoch epoch c.seen) c.seen;
    malformed = c.malformed + 1;
  }

  abbrev pub add_parsed : ℕ → ℕ → ℕ → Option P → Collected P → Collected P
  add_parsed threshold idx epoch none c = discard idx epoch c
  add_parsed threshold idx epoch (some p) c = add_partial threshold idx epoch p c

  unfoldable pub take_reply : (Bytes → Option P) → ℕ → Reply → Collected P → Collected P
  unfolding add_partial discard
  take_reply parse threshold Reply.failed c = record c { peer_errors = c.peer_errors + 1 }
  take_reply parse threshold (Reply.answered idx bytes epoch) c =
      if mem idx (at_epoch epoch c.seen) then c else add_parsed threshold idx epoch (parse bytes) c

  -- `while ready.is_none()`, over the answers in the order of their arrival.
  unfoldable pub collect : (Bytes → Option P) → ℕ → List Reply → Collected P → Collected P
  unfolding take_reply
  collect parse threshold [] c = c
  collect parse threshold (r ∷ rs) c =
      let rest = collect parse threshold rs (take_reply parse threshold r c) in
      if is_some c.ready then c else rest

  abbrev pub nothing_yet : Collected P
  nothing_yet = record {
    buckets = [];
    seen = [];
    contributors = [];
    ready = none;
    malformed = 0;
    peer_errors = 0;
  }

  -- This node's own partial, and then the peers'.
  unfoldable pub gather : (Bytes → Option P) → ℕ → ℕ → ℕ → P → List Reply → Collected P
  unfolding collect
  gather parse threshold idx epoch own replies =
      collect parse threshold replies (add_partial threshold idx epoch own nothing_yet)

module _ (b : Bls) where
  open b use {Partial, Sigma, share_from_bytes, sign, partial_from_bytes, combine, verify, app_key}

  -- `ok_or`, for a call whose every error is a `CryptoError`.
  abbrev or_crypto_error : {A : Type 0} → Option A → Result KmsError A
  or_crypto_error o = ok_or o KmsError.crypto_error

  abbrev pub verified : Sigma → Bytes → Bytes → Result KmsError (Unit {0})
  verified sigma pk msg = if verify sigma pk msg then ok tt else err KmsError.crypto_error

  -- Combine, verify against the group public key, and derive.
  unfoldable pub finish :
      ShardState → Option Bytes → Bytes → Collected Partial → Result KmsError (Bytes × DeriveTrace)
  finish own group_pubkey msg c = do
    epoch ← or_crypto_error c.ready
    sigma ← or_crypto_error (combine (at_epoch epoch c.buckets))
    pk ← or_crypto_error group_pubkey
    verified sigma pk msg
    ok (
      app_key sigma,
      record {
        coordinator = own.shard_index;
        epoch = epoch;
        servers = sort (at_epoch epoch c.contributors);
      },
    )

  -- `request_sig` is the outcome of `sign_request`; `group_pubkey` is read after the collection.
  unfoldable pub collect_and_dprf :
      Option ShardState
      → ℕ
      → Option Bytes
      → Option Bytes
      → Bytes
      → Bytes
      → List Reply
      → Result KmsError (Bytes × DeriveTrace)
  unfolding gather finish
  collect_and_dprf shard threshold group_pubkey request_sig app_id material replies = do
    own ← ok_or shard KmsError.config_error
    share ← or_crypto_error (share_from_bytes own.shard_bytes)
    own_partial ← or_crypto_error (sign share (dprf_message app_id material))
    or_crypto_error request_sig
    finish own group_pubkey (dprf_message app_id material)
        (gather partial_from_bytes threshold own.shard_index own.epoch own_partial replies)
