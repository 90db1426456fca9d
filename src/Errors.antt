-- ===== src/Errors.antt =====
-- src/error.rs: the error kinds and their HTTP status codes. The message of an error is left out,
-- but for the refusals of the attestation gate (src/verifier.rs), on whose text callers rely.
use g_kms.Prelude.{ℕ, Bytes}

-- The five texts of `require_verified`; a reason is scan's own.
pub data Refusal : Type 0 where
  -- the empty text of an entry that is no refusal
  empty : Refusal
  -- "attestation not verified: {reason}"
  denied : Bytes → Refusal
  -- "attestation not verified (recently checked): {reason}"
  recently_denied : Bytes → Refusal
  -- "attestation not verified: not registered on-chain per verifier"
  not_registered : Refusal
  -- "attestation verifier unreachable and this signer has no fresh-enough verdict"
  unreachable : Refusal
  -- "attestation not verified (recently checked): verifier unreachable"
  recently_unreachable : Refusal

pub data KmsError : Type 0 where
  invalid_timestamp : KmsError
  invalid_signature : KmsError
  app_not_found : KmsError
  not_attested : Refusal → KmsError
  bad_request : KmsError
  chain_error : KmsError
  crypto_error : KmsError
  config_error : KmsError

-- `KmsError::into_response`, its status code.
unfoldable pub status : KmsError → ℕ
status KmsError.invalid_timestamp = 401
status KmsError.invalid_signature = 401
status KmsError.app_not_found = 404
status KmsError.bad_request = 400
status (KmsError.not_attested r) = 403
status KmsError.chain_error = 500
status KmsError.crypto_error = 500
status KmsError.config_error = 500
