-- ===== src/Crypto.antt =====
-- src/crypto.rs and the key recovery of src/auth.rs: the functions around the libraries. The curves,
-- the hash functions and ECIES are libraries: the parameters `Secp256k1` and `BlsLibrary`.
pub mod Signing
pub mod Members
pub mod Bls
pub mod Derivation
pub mod Shares
pub mod Tests
use g_kms.Prelude.{
  ℕ, ◌%◌, ◌^◌, ◌==◌, Bool, true, false, List, [], ◌∷◌, ◌++◌, Option, none, some, Result, ok, err,
  ◌>>=◌, ok_or, ensure, Bytes, length, take, drop, get_elem?, codes,
}
use g_kms.Errors.{KmsError}
use g_kms.Auth.{Authority}
use g_kms.Auth.Metadata.{Formats}
use g_kms.Service.{Ecies}

-- `k256`, `sha3` and `ecies`, as far as they are called.
pub record Secp256k1 : Type 1 where
  pub SigningKey : Type 0
  pub VerifyingKey : Type 0
  pub Signature : Type 0
  pub keccak256 : Bytes → Bytes
  -- `SigningKey::from_bytes`
  pub signing_key : Bytes → Option SigningKey
  pub verifying_key : SigningKey → VerifyingKey
  -- with the byte of the recovery id
  pub sign_prehash : SigningKey → Bytes → Option (Signature × ℕ)
  -- `to_bytes` and `from_slice`
  pub signature_bytes : Signature → Bytes
  pub signature_of : Bytes → Option Signature
  -- for a recovery id that `RecoveryId::try_from` accepts
  pub recover_from_prehash : Bytes → Signature → ℕ → Option VerifyingKey
  -- `to_encoded_point(false)`
  pub encoded_point : VerifyingKey → Bytes
  -- `Address::from_slice`, as a number
  pub address : Bytes → ℕ
  pub encrypt : Bytes → Bytes → Option Bytes
  pub decrypt : Bytes → Bytes → Option Bytes

-- The errors of anyhow, of which only the text differs.
pub data CryptoError : Type 0 where
  invalid_key : CryptoError
  not_signed : CryptoError
  invalid_signature : CryptoError
  not_recovered : CryptoError

abbrev pub to_option {ℓ κ} : {E : Type ℓ} {A : Type κ} → Result E A → Option A
to_option (ok a) = some a
to_option (err e) = none

module _ (k : Secp256k1) where
  -- `pubkey_from_private`.
  unfoldable pub pubkey_from_private : Bytes → Result CryptoError Bytes
  pubkey_from_private private_key = do
    key ← ok_or (k.signing_key private_key) CryptoError.invalid_key
    ok (k.encoded_point (k.verifying_key key))

  -- `sign_bytes`: r, s and then the recovery id.
  unfoldable pub sign_bytes : Bytes → Bytes → Result CryptoError Bytes
  sign_bytes private_key message = do
    key ← ok_or (k.signing_key private_key) CryptoError.invalid_key
    signed ← ok_or (k.sign_prehash key (k.keccak256 message)) CryptoError.not_signed
    ok (k.signature_bytes signed.0 ++ signed.1 ∷ [])

  -- `recover_pubkey`, which panics where there is no byte 64; its callers have checked the length.
  unfoldable pub recover_pubkey : Bytes → Bytes → Result CryptoError Bytes
  recover_pubkey message sig_bytes = do
    v ← ok_or (get_elem? sig_bytes 64) CryptoError.invalid_signature
    sig ← ok_or (k.signature_of (take 64 sig_bytes)) CryptoError.invalid_signature
    key ← ok_or (k.recover_from_prehash (k.keccak256 message) sig (v % 2)) CryptoError.not_recovered
    ok (k.encoded_point key)

  -- `eth_address_from_pubkey`.
  unfoldable pub eth_address_from_pubkey : Bytes → ℕ
  eth_address_from_pubkey pubkey = k.address (drop 12 (k.keccak256 (drop 1 pubkey)))

  -- `ecies_encrypt` and `ecies_decrypt`.
  unfoldable pub ecies_encrypt : Bytes → Bytes → Result KmsError Bytes
  ecies_encrypt pubkey_bytes plaintext =
      ok_or (k.encrypt pubkey_bytes plaintext) KmsError.crypto_error

  unfoldable pub ecies_decrypt : Bytes → Bytes → Result KmsError Bytes
  ecies_decrypt private_key ciphertext =
      ok_or (k.decrypt private_key ciphertext) KmsError.crypto_error

  -- The interfaces of the other parts, with these functions in them.
  abbrev pub with_recovery : Authority → Authority
  with_recovery a = record a {
    recover_pubkey = λ message sig. to_option (recover_pubkey message sig);
    eth_address = eth_address_from_pubkey;
  }

  abbrev pub with_signing : Formats → Formats
  with_signing f = record f { sign_bytes = λ key message. to_option (sign_bytes key message) }

  abbrev pub ecies : Ecies
  ecies = record {
    encrypt = λ pubkey plain. to_option (ecies_encrypt pubkey plain);
    decrypt = λ key ciphertext. to_option (ecies_decrypt key ciphertext);
    sign_bytes = λ key message. to_option (sign_bytes key message);
  }
