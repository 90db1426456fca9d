-- ===== src/Service/Contribution.antt =====
-- What the handler `get_shard_contribution` gives away (src/grpc.rs).
use g_kms.Prelude.{◌≡◌, refl, ◌∙◌, some, Bytes, ok, >>=_known, ok_or_known, codes}
use g_kms.State.{AppState, ShardState}
use g_kms.Wire.{shard_signing_msg}
use g_kms.Gossip.{AuthContext}
use g_kms.Auth.{Authority}
use g_kms.Service.{Ecies, Status, Call, EncryptedShard, addr_bytes, caller, get_shard_contribution}
use g_kms.Service.Partials.{DecryptsFor}

-- Any caller that authenticates gets the whole share of this node, as long as encryption and
-- signing work: what it decrypts is the bytes of the share.
get_shard_contribution-DecryptsFor :
    (x : Ecies) (server_key client_key : Bytes) (server : Authority) (call : Call) (s : AppState)
    (ctx : AuthContext) (own : ShardState) (ciphertext sig : Bytes)
    → DecryptsFor x ctx.caller_pubkey client_key
    → caller x server_key server call (codes "GetShardContribution") s ≡ ok ctx
    → s.shard ≡ some own
    → x.encrypt ctx.caller_pubkey own.shard_bytes ≡ some ciphertext
    → x.sign_bytes server_key (
        shard_signing_msg
          (codes "GetShardContribution")
          (addr_bytes ctx.caller_eth_addr)
          own.shard_index
          ciphertext)
      ≡ some sig
    → (resp : EncryptedShard) × (get_shard_contribution x server_key server call s ≡ ok resp)
      × (resp.shard_index ≡ own.shard_index)
      × (x.decrypt client_key resp.ciphertext ≡ some own.shard_bytes)
unfolding get_shard_contribution
get_shard_contribution-DecryptsFor x server_key client_key server call s ctx own ciphertext sig
      decrypts authenticated holds encrypted signed =
    (
      record { ciphertext = ciphertext; shard_index = own.shard_index; signature = sig },
      >>=_known (caller x server_key server call (codes "GetShardContribution") s) _ authenticated
          ∙ ok_or_known s.shard Status.unavailable _ holds
          ∙ ok_or_known (x.encrypt ctx.caller_pubkey own.shard_bytes) Status.internal _ encrypted
          ∙ ok_or_known
              (x.sign_bytes server_key (
                shard_signing_msg (codes "GetShardContribution") (addr_bytes ctx.caller_eth_addr)
                  own.shard_index ciphertext))
              Status.internal _ signed,
      refl,
      decrypts own.shard_bytes ciphertext encrypted,
    )
