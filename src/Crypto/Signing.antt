-- ===== src/Crypto/Signing.antt =====
-- What a node signs is recovered as its own (src/crypto.rs, `sign_bytes`; src/auth.rs,
-- `recover_pubkey`).
use g_kms.Prelude.{
  ℕ, ◌<◌, ◌%◌, ◌≡◌, ap, ◌∙◌, sym, subst, [], ◌∷◌, ◌++◌, some, ok, Bytes, length, take, get_elem?,
  get_elem?-append, take-append, length-append, ok_or_step, ok_or_known, arith,
}
use g_kms.Crypto.{Secp256k1, CryptoError, pubkey_from_private, sign_bytes, recover_pubkey}

-- ECDSA as the library documents it: 64 bytes that are read back, and recovery, by the id that comes
-- with a signature, of the key that made it. The id is 0 or 1 unless the x of the nonce's point is
-- above the order of the curve, which has a probability below 2 ^ -127.
pub record IsEcdsa (k : Secp256k1) : Type 0 where
  pub signature_length : (sig : k.Signature) → length (k.signature_bytes sig) ≡ 64
  pub signature_read : (sig : k.Signature) → k.signature_of (k.signature_bytes sig) ≡ some sig
  pub recovered :
      (key : k.SigningKey) (hash : Bytes) (sig : k.Signature) (id : ℕ)
      → k.sign_prehash key hash ≡ some (sig, id)
      → (id < 2) × (k.recover_from_prehash hash sig id ≡ some (k.verifying_key key))

module _ (k : Secp256k1) (law : IsEcdsa k) where
  -- Signing and recovery are a round trip: what is signed with a private key is 65 bytes, from which,
  -- with the message, the public key of that private key comes back.
  pub recover_pubkey-sign_bytes :
      (private_key message sig : Bytes)
      → sign_bytes k private_key message ≡ ok sig
      → (length sig ≡ 65) × (recover_pubkey k message sig ≡ pubkey_from_private k private_key)
  unfolding sign_bytes recover_pubkey pubkey_from_private
  recover_pubkey-sign_bytes private_key message sig h =
      let (key, valid, h1) = ok_or_step (k.signing_key private_key) _ _ h in
      let hash = k.keccak256 message in
      let ((rs, id), signed, h2) = ok_or_step (k.sign_prehash key hash) _ _ h1 in
      let (small, recovers) = law.recovered key hash rs id signed in
      let bytes = k.signature_bytes rs ++ id ∷ [] in
      let made : bytes ≡ sig = ground arith in
      let len = law.signature_length rs in
      let same : id % 2 ≡ id = omega arith in
      let bad = CryptoError.invalid_signature in
      subst
        (λ sig.
          (length sig ≡ 65) × (recover_pubkey k message sig ≡ pubkey_from_private k private_key))
        made
        (
          omega (arith, length-append (k.signature_bytes rs) (id ∷ [])),
          ok_or_known (get_elem? bytes 64) bad _ (get_elem?-append (k.signature_bytes rs) id 64 len)
              ∙ ok_or_known (k.signature_of (take 64 bytes)) bad _ (
                  ap k.signature_of (take-append (k.signature_bytes rs) id 64 len)
                  ∙ law.signature_read rs)
              ∙ ok_or_known (k.recover_from_prehash hash rs (id % 2)) CryptoError.not_recovered _
                  (ap (k.recover_from_prehash hash rs) same ∙ recovers)
              ∙ sym (ok_or_known (k.signing_key private_key) CryptoError.invalid_key _ valid),
        )
