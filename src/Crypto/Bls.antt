-- ===== src/Crypto/Bls.antt =====
-- The threshold signature of src/crypto.rs: the functions around blsful, and the interface that
-- `collect_and_dprf` takes of them.
use g_kms.Prelude.{ℕ, Bool, is_ok, List, Option, Result, ok, ◌>>=◌, ok_or, ensure, Bytes, codes}
use g_kms.State.{ShardState}
use g_kms.Derive.{Bls}
use g_kms.Crypto.{to_option}

-- `SecretKeyShare(DefaultShare { identifier, value })`.
pub record SecretKeyShare (Scalar : Type 0) : Type 0 where
  pub identifier : Scalar
  pub value : Scalar

-- blsful, blstrs_plus and hkdf, as far as they are called.
pub record BlsLibrary : Type 1 where
  pub Scalar : Type 0
  pub SecretKey : Type 0
  pub PublicKey : Type 0
  pub Signature : Type 0
  pub SignatureShare : Type 0
  -- `Scalar::from` of a u64
  pub scalar : ℕ → Scalar
  pub split : ℕ → ℕ → SecretKey → Option (List (SecretKeyShare Scalar))
  -- in the scheme `Basic`
  pub sign : SecretKeyShare Scalar → Bytes → Option SignatureShare
  pub from_shares : List SignatureShare → Option Signature
  pub public_key : Bytes → Option PublicKey
  pub verify : Signature → PublicKey → Bytes → Bool
  pub signature_bytes : Signature → Bytes
  -- HKDF-SHA256 without salt, of the key material and `info`, for 32 bytes
  pub hkdf_32 : Bytes → Bytes → Bytes
  pub secret_share_bytes : SecretKeyShare Scalar → Bytes
  pub secret_share_of : Bytes → Option (SecretKeyShare Scalar)
  pub signature_share_bytes : SignatureShare → Bytes
  pub signature_share_of : Bytes → Option SignatureShare

-- The errors of anyhow, of which only the text differs.
pub data BlsError : Type 0 where
  not_split : BlsError
  not_signed : BlsError
  not_combined : BlsError
  invalid_group_pubkey : BlsError
  not_verified : BlsError
  invalid_share : BlsError
  invalid_partial : BlsError

abbrev pub kdf_dst : Bytes
kdf_dst = codes "0g-kms:dprf-kdf:v2"

module _ (l : BlsLibrary) where
  open l use {Scalar, SecretKey, Signature, SignatureShare}

  -- `split_master`, of the master that it draws.
  unfoldable pub split_master : SecretKey → ℕ → ℕ → Result BlsError (List (SecretKeyShare Scalar))
  split_master master threshold total = ok_or (l.split threshold total master) BlsError.not_split

  unfoldable pub dprf_partial : SecretKeyShare Scalar → Bytes → Result BlsError SignatureShare
  dprf_partial share msg = ok_or (l.sign share msg) BlsError.not_signed

  unfoldable pub dprf_sigma : List SignatureShare → Result BlsError Signature
  dprf_sigma partials = ok_or (l.from_shares partials) BlsError.not_combined

  unfoldable pub dprf_verify : Signature → Bytes → Bytes → Result BlsError (Unit {0})
  dprf_verify sigma group_pubkey msg = do
    pk ← ok_or (l.public_key group_pubkey) BlsError.invalid_group_pubkey
    ensure (l.verify sigma pk msg) BlsError.not_verified

  unfoldable pub sigma_to_app_key : Signature → Bytes
  sigma_to_app_key sigma = l.hkdf_32 (l.signature_bytes sigma) kdf_dst

  -- `share_to_bytes` and `share_from_bytes`.
  unfoldable pub share_to_bytes : SecretKeyShare Scalar → Bytes
  share_to_bytes share = l.secret_share_bytes share

  unfoldable pub share_from_bytes : Bytes → Result BlsError (SecretKeyShare Scalar)
  share_from_bytes bytes = ok_or (l.secret_share_of bytes) BlsError.invalid_share

  -- `partial_to_bytes` and `partial_from_bytes`.
  unfoldable pub partial_to_bytes : SignatureShare → Bytes
  partial_to_bytes partial = l.signature_share_bytes partial

  unfoldable pub partial_from_bytes : Bytes → Result BlsError SignatureShare
  partial_from_bytes bytes = ok_or (l.signature_share_of bytes) BlsError.invalid_partial

  -- `gennaro_share_to_blsful` and `blsful_share_scalar`.
  unfoldable pub gennaro_share_to_blsful : ℕ → Scalar → SecretKeyShare Scalar
  gennaro_share_to_blsful id scalar = record { identifier = l.scalar id; value = scalar }

  unfoldable pub blsful_share_scalar : SecretKeyShare Scalar → Scalar
  blsful_share_scalar share = share.value

  -- The share of a session's output, as it is stored, and the scalar that a dealer feeds into a
  -- reshare from its stored share.
  abbrev pub stored_bytes : ℕ → Scalar → Bytes
  stored_bytes own_id scalar = share_to_bytes (gennaro_share_to_blsful own_id scalar)

  abbrev pub own_scalar : ShardState → Result BlsError Scalar
  own_scalar shard = share_from_bytes shard.shard_bytes >>= λ share. ok (blsful_share_scalar share)

  -- The interface of a derivation, with these functions in it.
  abbrev pub threshold_bls : Bls
  threshold_bls = record {
    Share = SecretKeyShare Scalar;
    Partial = SignatureShare;
    Sigma = Signature;
    share_from_bytes = λ bytes. to_option (share_from_bytes bytes);
    sign = λ share msg. to_option (dprf_partial share msg);
    partial_from_bytes = λ bytes. to_option (partial_from_bytes bytes);
    combine = λ partials. to_option (dprf_sigma partials);
    verify = λ sigma pk msg. is_ok (dprf_verify sigma pk msg);
    app_key = sigma_to_app_key;
  }
