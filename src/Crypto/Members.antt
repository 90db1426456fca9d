-- ===== src/Crypto/Members.antt =====
-- The code's own signing, key recovery and encryption in the calls between members (src/crypto.rs,
-- src/auth.rs, src/grpc.rs): of the libraries only what they document is assumed.
use g_kms.Prelude.{
  ℕ, ◌≡◌, refl, ap, ◌∙◌, sym, true, Option, none, some, Result, ok, err, ok_or, Bytes, length,
  arith, codes,
}
use g_kms.Errors.{KmsError}
use g_kms.I64.{in_tolerance}
use g_kms.State.{AppState, ShardState}
use g_kms.Wire.{dprf_message}
use g_kms.Gossip.{AuthContext}
use g_kms.Auth.{Authority, authenticate}
use g_kms.Auth.Members.{IsMember}
use g_kms.Auth.Metadata.{Formats, sign_request, request_metadata, parse_metadata, if_parsed}
use g_kms.Auth.Requests.{ReadsHex, ReadsDecimal, authenticate-sign_request}
use g_kms.Derive.{Bls, Reply}
use g_kms.Service.{Call, EncryptedPartial, caller, get_dprf_partial}
use g_kms.Service.Client.{ask_partial}
use g_kms.Service.Partials.{DecryptsFor, ask_partial-get_dprf_partial}
use g_kms.Crypto.{
  Secp256k1, pubkey_from_private, sign_bytes, recover_pubkey, eth_address_from_pubkey, to_option,
  with_recovery, with_signing, ecies, ecies_encrypt, ecies_decrypt,
}
use g_kms.Crypto.Signing.{IsEcdsa, recover_pubkey-sign_bytes}

-- ECIES as the library documents it: what is encrypted to the public key of a private key decrypts
-- with it.
abbrev pub IsEcies : Secp256k1 → Type 0
IsEcies k =
    (private_key pubkey plain ciphertext : Bytes)
    → pubkey_from_private k private_key ≡ ok pubkey
    → k.encrypt pubkey plain ≡ some ciphertext
    → k.decrypt private_key ciphertext ≡ some plain

to_option-eq-some : {E A : Type 0} (r : Result E A) (a : A) → to_option r ≡ some a → r ≡ ok a
to_option-eq-some (ok b) a h = ground arith
to_option-eq-some (err e) a h = ground arith

pub to_option-ok_or : {E A : Type 0} (o : Option A) (e : E) → to_option (ok_or o e) ≡ o
to_option-ok_or none e = refl
to_option-ok_or (some a) e = refl

pub ecies-DecryptsFor :
    (k : Secp256k1) (private_key pubkey : Bytes)
    → IsEcies k
    → pubkey_from_private k private_key ≡ ok pubkey
    → DecryptsFor (ecies k) pubkey private_key
unfolding ecies_encrypt ecies_decrypt
ecies-DecryptsFor k private_key pubkey law own plain ciphertext h =
    to_option-ok_or (k.decrypt private_key ciphertext) KmsError.crypto_error
    ∙ law private_key pubkey plain ciphertext own
        (sym (to_option-ok_or (k.encrypt pubkey plain) KmsError.crypto_error) ∙ h)

module _ (k : Secp256k1) (ecdsa : IsEcdsa k) (private_key pubkey : Bytes)
    (own : pubkey_from_private k private_key ≡ ok pubkey) where
  pub signed-recovered :
      (message sig : Bytes)
      → to_option (sign_bytes k private_key message) ≡ some sig
      → (length sig ≡ 65) × (to_option (recover_pubkey k message sig) ≡ some pubkey)
  signed-recovered message sig h =
      let (len, same) =
        recover_pubkey-sign_bytes k ecdsa private_key message sig
          (to_option-eq-some (sign_bytes k private_key message) sig h) in
      (len, ap to_option (same ∙ own))

  -- A node whose address is in the node list and that passes the gate has its requests accepted: what
  -- `sign_request` signs with its private key, for a method and an instant within the window, is
  -- authenticated under that method as the public key of that private key and its address.
  pub authenticate-sign_bytes :
      (f : Formats) (a : Authority) (method sig : Bytes) (timestamp now tolerance : ℕ)
      → sign_request (with_signing k f) (with_recovery k a) private_key method timestamp ≡ some sig
      → ReadsHex f sig
      → ReadsDecimal f a timestamp
      → in_tolerance now timestamp tolerance ≡ true
      → IsMember a (eth_address_from_pubkey k pubkey)
      → authenticate
          (with_recovery k a)
          (if_parsed (
            parse_metadata
              (with_signing k f)
              (with_recovery k a)
              (request_metadata (with_signing k f) (with_recovery k a) sig timestamp)))
          method
          now
          tolerance
        ≡ ok (record { caller_pubkey = pubkey; caller_eth_addr = eth_address_from_pubkey k pubkey })
  authenticate-sign_bytes f a method sig timestamp now tolerance signed hex text recent member =
      authenticate-sign_request (with_signing k f) (with_recovery k a) private_key pubkey method sig
        timestamp now tolerance signed-recovered signed hex text recent member

-- When a node answers a request for a partial, a caller that has it in its node list, and that holds
-- the private key of the public key it called under, takes from the answer just the partial that the
-- node signed for the derivation message with its share, with its index and epoch.
pub ask_partial-sign_bytes :
    (k : Secp256k1) (server_key server_pubkey client_key : Bytes) (server client : Authority)
    (b : Bls) (partial_to_bytes : b.Partial → Bytes) (call : Call) (app_id material : Bytes)
    (s : AppState) (ctx : AuthContext) (resp : EncryptedPartial)
    → IsEcdsa k
    → IsEcies k
    → pubkey_from_private k server_key ≡ ok server_pubkey
    → pubkey_from_private k client_key ≡ ok ctx.caller_pubkey
    → IsMember client (eth_address_from_pubkey k server_pubkey)
    → caller (ecies k) server_key (with_recovery k server) call (codes "GetDprfPartial") s ≡ ok ctx
    → get_dprf_partial
        (ecies k)
        server_key
        (with_recovery k server)
        b
        partial_to_bytes
        call
        app_id
        material
        s
      ≡ ok resp
    → (own : ShardState) × (share : b.Share) × (partial : b.Partial) × (s.shard ≡ some own)
      × (b.share_from_bytes own.shard_bytes ≡ some share)
      × (b.sign share (dprf_message app_id material) ≡ some partial)
      × (ask_partial (ecies k) client_key (with_recovery k client) ctx.caller_eth_addr (ok resp)
          ≡ Reply.answered own.shard_index (partial_to_bytes partial) own.epoch)
ask_partial-sign_bytes k server_key server_pubkey client_key server client b partial_to_bytes call
      app_id material s ctx resp ecdsa law server_own client_own member authenticated answered =
    ask_partial-get_dprf_partial (ecies k) server_key client_key (with_recovery k server)
      (with_recovery k client) server_pubkey b partial_to_bytes call app_id material s ctx resp
      (signed-recovered k ecdsa server_key server_pubkey server_own) member
      (ecies-DecryptsFor k client_key ctx.caller_pubkey law client_own) authenticated answered
