-- ===== src/Auth.antt =====
-- src/auth.rs: who is accepted as a member of the cluster, as a caller and as a signer of responses.
-- Key recovery is a library's. What `get_signer_addresses_for` (Chain) and `require_verified`
-- (Verifier) answer for a signer is an argument.
pub mod Metadata
pub mod Members
pub mod Requests
mod Tests
use g_kms.Prelude.{
  ℕ, not, Bool, true, false, List, [], ◌∷◌, ◌++◌, Option, none, some, Result, ok, err, ◌>>=◌, ◌>>◌,
  ensure, ok_or, map_err, Bytes, codes, is_empty, length, ◌==◌,
}
use g_kms.Errors.{KmsError}
use g_kms.Chain.{contains}
use g_kms.Verifier.{Gate}
use g_kms.I64.{in_tolerance}
use g_kms.Gossip.{AuthContext}

-- The statuses of a refusal.
pub data AuthError : Type 0 where
  unauthenticated : AuthError
  permission_denied : AuthError

pub record Authority : Type 0 where
  -- `recover_pubkey`, of a message and a signature
  pub recover_pubkey : Bytes → Bytes → Option Bytes
  -- `eth_address_from_pubkey`
  pub eth_address : Bytes → ℕ
  -- the decimal text of an i64
  pub decimal : ℕ → Bytes
  pub node_list : ℕ → Result KmsError (List ℕ)
  pub require_verified : ℕ → Gate

module _ (a : Authority) where
  -- The text that a request is signed over.
  abbrev pub request_message : Bytes → ℕ → Bytes
  request_message method timestamp = codes "kms:" ++ (method ++ (codes ":" ++ a.decimal timestamp))

  -- `verify_on_chain`.
  unfoldable pub verify_on_chain : ℕ → Result AuthError (Unit {0})
  verify_on_chain addr = do
    signers ← map_err (λ e. AuthError.unauthenticated) (a.node_list addr)
    ensure (not (is_empty signers)) AuthError.unauthenticated
    ensure (contains addr signers) AuthError.unauthenticated

  abbrev pub attested : ℕ → Result AuthError (Unit {0})
  attested addr = map_err (λ e. AuthError.permission_denied) (a.require_verified addr)

  -- `authenticate`, for the signature and the timestamp in the metadata, if they parse.
  unfoldable pub authenticate : Option (Bytes × ℕ) → Bytes → ℕ → ℕ → Result AuthError AuthContext
  unfolding verify_on_chain
  authenticate metadata method now tolerance = do
    parsed ← ok_or metadata AuthError.unauthenticated
    ensure (in_tolerance now parsed.1 tolerance) AuthError.unauthenticated
    pubkey ←
        ok_or (a.recover_pubkey (request_message method parsed.1) parsed.0)
          AuthError.unauthenticated
    verify_on_chain (a.eth_address pubkey)
    attested (a.eth_address pubkey)
    ok (record { caller_pubkey = pubkey; caller_eth_addr = a.eth_address pubkey })

  -- `recover_signer_address`.
  abbrev pub recover_signer_address : Bytes → Bytes → Result AuthError ℕ
  recover_signer_address message sig = do
    ensure (length sig == 65) AuthError.unauthenticated
    pubkey ← ok_or (a.recover_pubkey message sig) AuthError.unauthenticated
    ok (a.eth_address pubkey)

  -- `verify_cluster_response`; its errors are texts, here the statuses that `authenticate` has.
  unfoldable pub verify_cluster_response : Bytes → Bytes → Result AuthError (Unit {0})
  verify_cluster_response message sig = do
    signer ← recover_signer_address message sig
    nodes ← map_err (λ e. AuthError.unauthenticated) (a.node_list signer)
    ensure (contains signer nodes) AuthError.unauthenticated
    attested signer
