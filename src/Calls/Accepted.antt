-- ===== src/Calls/Accepted.antt =====
-- A member's request, as the member that it calls takes it (src/grpc.rs, src/auth.rs).
use g_kms.Prelude.{ℕ, ◌≡◌, ap, true, some, Bytes, ok, map_err}
use g_kms.I64.{in_tolerance}
use g_kms.State.{AppState}
use g_kms.Gossip.{AuthContext}
use g_kms.Auth.{Authority}
use g_kms.Auth.Members.{IsMember}
use g_kms.Auth.Metadata.{Formats, sign_request, request_metadata}
use g_kms.Auth.Requests.{ReadsHex, ReadsDecimal}
use g_kms.Service.{caller, auth_status}
use g_kms.Crypto.{
  Secp256k1, pubkey_from_private, eth_address_from_pubkey, with_recovery, with_signing, ecies,
}
use g_kms.Crypto.Signing.{IsEcdsa}
use g_kms.Crypto.Members.{authenticate-sign_bytes}
use g_kms.Calls.{call_of}

-- A request that a private key has signed for a method, within the window of the state that it meets,
-- by a member, whose signature and instant are read back as they are written.
abbrev pub IsAccepted :
    (k : Secp256k1)
    → Formats
    → Authority
    → Bytes
    → Bytes
    → Bytes
    → Bytes
    → ℕ
    → ℕ
    → AppState
    → Type 0
IsAccepted k f a private_key pubkey method sig timestamp now s =
    (pubkey_from_private k private_key ≡ ok pubkey)
    × (sign_request (with_signing k f) (with_recovery k a) private_key method timestamp ≡ some sig)
    × ReadsHex f sig
    × ReadsDecimal f a timestamp
    × (in_tolerance now timestamp s.config.timestamp_tolerance_secs ≡ true)
    × IsMember a (eth_address_from_pubkey k pubkey)

abbrev pub context : Secp256k1 → Bytes → AuthContext
context k pubkey = record {
  caller_pubkey = pubkey;
  caller_eth_addr = eth_address_from_pubkey k pubkey;
}

pub caller-IsAccepted :
    (k : Secp256k1) (f : Formats) (a : Authority) (private_key pubkey method sig : Bytes)
    (timestamp now : ℕ) (server_key : Bytes) (s : AppState)
    → IsEcdsa k
    → IsAccepted k f a private_key pubkey method sig timestamp now s
    → caller
        (ecies k)
        server_key
        (with_recovery k a)
        (call_of
          (with_signing k f)
          (ecies k)
          server_key
          (with_recovery k a)
          now
          (request_metadata (with_signing k f) (with_recovery k a) sig timestamp))
        method
        s
      ≡ ok (context k pubkey)
unfolding caller
caller-IsAccepted k f a private_key pubkey method sig timestamp now server_key s ecdsa
      (own, signed, hex, decimal, recent, member) =
    ap (map_err auth_status) (
      authenticate-sign_bytes k ecdsa private_key pubkey own f a method sig timestamp now
        s.config.timestamp_tolerance_secs signed hex decimal recent member)
