-- ===== src/Calls/Rounds.antt =====
-- A round message from one member's driver to another's buffer (src/grpc.rs, `send_dkg_round` and
-- `dkg_round`; src/dkg.rs).
use g_kms.Prelude.{
  refl, ℕ, arith, beq_bytes_iff, ==_iff, true, [], ◌∷◌, ◌≡◌, ◌∙◌, false, is_empty, some, nat_eq,
  Bytes, ok, codes, bytes_eq,
}
use g_kms.State.{AppState}
use g_kms.Auth.{Authority}
use g_kms.Auth.Metadata.{Formats}
use g_kms.Dkg.{deliver, buffered}
use g_kms.Dkg.Buffer.{Arrival, is_from, message_of, deliver_all-latest}
use g_kms.Service.{dkg_round}
use g_kms.Crypto.{Secp256k1, pubkey_from_private, with_recovery, with_signing, ecies}
use g_kms.Crypto.Signing.{IsEcdsa}
use g_kms.Crypto.Members.{IsEcies, ecies-DecryptsFor}
use g_kms.Calls.{send_dkg_round, served_dkg_round}
use g_kms.Calls.Accepted.{IsAccepted, caller-IsAccepted}

is_from_itself : (m : Arrival) → is_from m.session_id m.round m.from_index m ≡ true
is_from_itself m = ground (
  arith,
  (beq_bytes_iff m.session_id m.session_id).1 refl,
  (==_iff m.round m.round).1 refl,
  (==_iff m.from_index m.from_index).1 refl,
)

-- A round message that a member sends to another, its p2p payload encrypted to the public key of the
-- other, is acknowledged, and changes nothing at the other but its buffer, where its driver then finds
-- as that sender's message of the round the broadcast and the plain payload.
pub send_dkg_round-deliver :
    (k : Secp256k1) (f : Formats) (a : Authority) (private_key pubkey sig : Bytes)
    (timestamp now : ℕ) (server_key server_pubkey : Bytes) (session_id : Bytes)
    (round from_index : ℕ) (broadcast plain p2p : Bytes) (s : AppState)
    → IsEcdsa k
    → IsEcies k
    → IsAccepted k f a private_key pubkey (codes "DkgRound") sig timestamp now s
    → pubkey_from_private k server_key ≡ ok server_pubkey
    → (ecies k).encrypt server_pubkey plain ≡ some p2p
    → is_empty p2p ≡ false
    → (send_dkg_round
          (with_signing k f)
          (with_recovery k a)
          (some (served_dkg_round (with_signing k f) (ecies k) server_key (with_recovery k a) now))
          session_id
          round
          from_index
          broadcast
          p2p
          sig
          timestamp
          s
        ≡ (ok tt, deliver session_id round from_index broadcast plain s))
      × (message_of from_index
            (buffered session_id round (deliver session_id round from_index broadcast plain s))
          ≡ some (broadcast, plain))
unfolding send_dkg_round dkg_round
send_dkg_round-deliver k f a private_key pubkey sig timestamp now server_key server_pubkey
      session_id round from_index broadcast plain p2p s ecdsa law accepted own encrypted filled =
    let known =
      caller-IsAccepted k f a private_key pubkey (codes "DkgRound") sig timestamp now server_key s
        ecdsa accepted in
    let opens = ecies-DecryptsFor k server_key server_pubkey law own plain p2p encrypted in
    let m : Arrival = record {
      session_id = session_id;
      round = round;
      from_index = from_index;
      broadcast = broadcast;
      p2p = plain;
    } in
    (
      rw known (rw filled (rw opens refl)),
      deliver_all-latest (m ∷ []) session_id round from_index s ∙ rw (is_from_itself m) refl,
    )
