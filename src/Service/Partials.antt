-- ===== src/Service/Partials.antt =====
-- A partial on its way from the node that signs it to the one that asked (src/grpc.rs).
use g_kms.Prelude.{
  >>=_rest, map_err-eq-ok, ensure_step, ok_or_step, map_err_step, subst₂, ℕ, ◌≡◌, refl, sym, ap,
  subst, ◌∙◌, ◌==◌, ==_iff, Option-cases, Result-cases, inl, inr, length, some, Bytes, Result, ok,
  err, >>=-eq-ok, codes, arith,
}
use g_kms.State.{AppState, ShardState}
use g_kms.Wire.{dprf_message, dprf_partial_signing_msg}
use g_kms.Gossip.{AuthContext}
use g_kms.Chain.{contains}
use g_kms.Auth.{Authority, recover_signer_address, verify_cluster_response}
use g_kms.Auth.Members.{IsMember}
use g_kms.Derive.{Bls, Reply}
use g_kms.Service.{Ecies, Status, Call, EncryptedPartial, addr_bytes, caller, get_dprf_partial}
use g_kms.Service.Client.{ask_partial, as_reply, decrypted_reply}

-- A message is signed by a member.
abbrev pub IsVouched : Authority → Bytes → Bytes → Type 0
IsVouched a message sig =
    (length sig ≡ 65)
    × (pubkey : Bytes) × (a.recover_pubkey message sig ≡ some pubkey)
    × IsMember a (a.eth_address pubkey)

pub verify_cluster_response-IsVouched :
    (a : Authority) (message sig : Bytes)
    → verify_cluster_response a message sig ≡ ok tt
    → IsVouched a message sig
unfolding verify_cluster_response
verify_cluster_response-IsVouched a message sig h =
    let (signer, found, h1) = >>=-eq-ok (recover_signer_address a message sig) _ h in
    let (len, h2) = ensure_step (length sig == 65) _ _ found in
    let (pubkey, signed, h3) = ok_or_step (a.recover_pubkey message sig) _ _ h2 in
    let (nodes, read, h4) = map_err_step _ (a.node_list signer) _ h1 in
    let (listed, h5) = ensure_step (contains signer nodes) _ _ h4 in
    let attests : a.require_verified signer ≡ ok tt = map_err-eq-ok _ _ h5 in
    let member : IsMember a signer = (nodes, read, listed, attests) in
    let same : a.eth_address pubkey ≡ signer = ground arith in
    ((==_iff (length sig) 65).0 len, pubkey, signed, subst (IsMember a) (sym same) member)

pub verify_cluster_response_ok :
    (a : Authority) (message sig : Bytes)
    → IsVouched a message sig
    → verify_cluster_response a message sig ≡ ok tt
unfolding verify_cluster_response
verify_cluster_response_ok a message sig (len, pubkey, signed, (list, read, listed, attests)) =
    ground (arith, len, signed, read, listed, attests)

-- A reply that is taken has come from a member: it has signed, for this very node, the index, the epoch
-- and the ciphertext of which the partial is the plaintext.
pub ask_partial-IsVouched :
    (x : Ecies) (private_key : Bytes) (a : Authority) (own_addr : ℕ)
    (answer : Result Status EncryptedPartial) (idx : ℕ) (bytes : Bytes) (epoch : ℕ)
    → ask_partial x private_key a own_addr answer ≡ Reply.answered idx bytes epoch
    → (resp : EncryptedPartial) × (answer ≡ ok resp)
      × IsVouched a
          (dprf_partial_signing_msg (addr_bytes own_addr) idx epoch resp.ciphertext)
          resp.signature
      × (x.decrypt private_key resp.ciphertext ≡ some bytes)
unfolding ask_partial
ask_partial-IsVouched x private_key a own_addr (err e) idx bytes epoch h = ground arith
ask_partial-IsVouched x private_key a own_addr (ok resp) idx bytes epoch h =
    let msg =
      dprf_partial_signing_msg (addr_bytes own_addr) resp.shard_index resp.epoch resp.ciphertext in
    elim (Result-cases (verify_cluster_response a msg resp.signature)) [
      | inr (e, refused) ↦ ground arith
      | inl (u, vouched) ↦ elim (Option-cases (x.decrypt private_key resp.ciphertext)) [
        | inl garbled ↦ ground arith
        | inr (plain, decrypts) ↦
            let i : resp.shard_index ≡ idx = ground arith in
            let e : resp.epoch ≡ epoch = ground arith in
            (
              resp,
              refl,
              subst₂
                  (λ i e.
                    IsVouched a (dprf_partial_signing_msg (addr_bytes own_addr) i e resp.ciphertext)
                      resp.signature)
                  i e (verify_cluster_response-IsVouched a msg resp.signature vouched),
              ground arith,
            )
      ]
    ]

-- A node that another accepts: what it signs recovers to a key whose address is a member's.
abbrev pub SignsAs : Ecies → Bytes → Authority → Bytes → Type 0
SignsAs x private_key a pubkey =
    (message sig : Bytes)
    → x.sign_bytes private_key message ≡ some sig
    → (length sig ≡ 65) × (a.recover_pubkey message sig ≡ some pubkey)

-- ECIES: what is encrypted to the public key decrypts with the private one.
abbrev pub DecryptsFor : Ecies → Bytes → Bytes → Type 0
DecryptsFor x pubkey private_key =
    (plain ciphertext : Bytes)
    → x.encrypt pubkey plain ≡ some ciphertext
    → x.decrypt private_key ciphertext ≡ some plain

-- Partial round trip: when a node answers a caller that accepts it as a member, and what is
-- encrypted to the caller decrypts, the caller takes from the answer exactly the partial that the
-- node signed for the derivation message with its share, with its index and epoch.
pub ask_partial-get_dprf_partial :
    (x : Ecies) (server_key client_key : Bytes) (server client : Authority) (pubkey : Bytes)
    (b : Bls) (partial_to_bytes : b.Partial → Bytes) (call : Call) (app_id material : Bytes)
    (s : AppState) (ctx : AuthContext) (resp : EncryptedPartial)
    → SignsAs x server_key client pubkey
    → IsMember client (client.eth_address pubkey)
    → DecryptsFor x ctx.caller_pubkey client_key
    → caller x server_key server call (codes "GetDprfPartial") s ≡ ok ctx
    → get_dprf_partial x server_key server b partial_to_bytes call app_id material s ≡ ok resp
    → (own : ShardState) × (share : b.Share) × (partial : b.Partial) × (s.shard ≡ some own)
      × (b.share_from_bytes own.shard_bytes ≡ some share)
      × (b.sign share (dprf_message app_id material) ≡ some partial)
      × (ask_partial x client_key client ctx.caller_eth_addr (ok resp)
          ≡ Reply.answered own.shard_index (partial_to_bytes partial) own.epoch)
unfolding get_dprf_partial ask_partial
ask_partial-get_dprf_partial x server_key client_key server client pubkey b partial_to_bytes call
      app_id material s ctx resp signs member decrypts authenticated h =
    let h0 =
      >>=_rest (caller x server_key server call (codes "GetDprfPartial") s) _ authenticated h in
    let (own, holds, h1) = ok_or_step s.shard _ _ h0 in
    let (share, parsed, h2) = ok_or_step (b.share_from_bytes own.shard_bytes) _ _ h1 in
    let (partial, evaluated, h3) =
      ok_or_step (b.sign share (dprf_message app_id material)) _ _ h2 in
    let plain = partial_to_bytes partial in
    let (ciphertext, encrypted, h4) = ok_or_step (x.encrypt ctx.caller_pubkey plain) _ _ h3 in
    let msg =
      dprf_partial_signing_msg (addr_bytes ctx.caller_eth_addr) own.shard_index own.epoch
        ciphertext in
    let (signature, signed, h5) = ok_or_step (x.sign_bytes server_key msg) _ _ h4 in
    let sent : EncryptedPartial = record {
      ciphertext = ciphertext;
      shard_index = own.shard_index;
      epoch = own.epoch;
      signature = signature;
    } in
    let same : sent ≡ resp = ground arith in
    let (len, recovers) = signs msg signature signed in
    let vouched = verify_cluster_response_ok client msg signature (len, pubkey, recovers, member) in
    let taken : ask_partial x client_key client ctx.caller_eth_addr (ok sent)
        ≡ Reply.answered own.shard_index plain own.epoch =
      ap (decrypted_reply x client_key client ctx.caller_eth_addr sent) vouched
      ∙ ap (as_reply x client_key client ctx.caller_eth_addr sent)
          (decrypts plain ciphertext encrypted) in
    (
      own,
      share,
      partial,
      holds,
      parsed,
      evaluated,
      subst
          (λ r.
            ask_partial x client_key client ctx.caller_eth_addr (ok r)
            ≡ Reply.answered own.shard_index plain own.epoch)
          same taken,
    )
