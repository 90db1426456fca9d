-- ===== src/Service/Client.antt =====
-- The calls to a peer that answer with a ciphertext (src/grpc.rs, `get_dprf_partial`; src/init.rs,
-- `request_shard_from_peer`), from the response on.
use g_kms.Prelude.{ℕ, Option, none, some, Bytes, Result, ok, err, is_ok, codes}
use g_kms.Wire.{dprf_partial_signing_msg, shard_signing_msg}
use g_kms.Auth.{Authority, AuthError, verify_cluster_response}
use g_kms.Formation.{Contact, Code}
use g_kms.Derive.{Reply}
use g_kms.Service.{Ecies, Status, EncryptedPartial, EncryptedShard, addr_bytes}

-- The node that calls: whom it accepts, its private key, its address and the libraries.
module _ (x : Ecies) (private_key : Bytes) (a : Authority) (own_addr : ℕ) where
  abbrev pub as_reply : EncryptedPartial → Option Bytes → Reply
  as_reply resp none = Reply.failed
  as_reply resp (some bytes) = Reply.answered resp.shard_index bytes resp.epoch

  abbrev pub decrypted_reply : EncryptedPartial → Result AuthError (Unit {0}) → Reply
  decrypted_reply resp (err e) = Reply.failed
  decrypted_reply resp (ok u) = as_reply resp (x.decrypt private_key resp.ciphertext)

  -- The client `get_dprf_partial`; every error of it, one of the call included, is a failed reply.
  unfoldable pub ask_partial : Result Status EncryptedPartial → Reply
  unfolding verify_cluster_response
  ask_partial (err e) = Reply.failed
  ask_partial (ok resp) = decrypted_reply resp (
      verify_cluster_response a
        (dprf_partial_signing_msg (addr_bytes own_addr) resp.shard_index resp.epoch resp.ciphertext)
        resp.signature)

  abbrev pub code : Status → Code
  code Status.unavailable = Code.unavailable
  code Status.failed_precondition = Code.failed_precondition
  code Status.unauthenticated = Code.other
  code Status.permission_denied = Code.other
  code Status.unimplemented = Code.other
  code Status.internal = Code.other

  -- What `request_shard_from_peer` sees of an answer of `request_shard`.
  unfoldable pub contact_of : Result Status EncryptedShard → Contact
  unfolding verify_cluster_response
  contact_of (err e) = Contact.refused_with (code e)
  contact_of (ok resp) =
      Contact.responded resp.shard_index
        (is_ok (
          verify_cluster_response a
            (shard_signing_msg (codes "RequestShard") (addr_bytes own_addr) resp.shard_index
              resp.ciphertext)
            resp.signature))
        (x.decrypt private_key resp.ciphertext)
