-- ===== src/Service/Initial.antt =====
-- The shares that the first node hands out (src/init.rs, `init_start_node`; src/grpc.rs,
-- `try_assign_init_shard`).
use g_kms.Prelude.{
  ℕ, zero, suc, ◌+◌, ◌≡◌, ap, ◌∙◌, get_elem?, List, [], ◌∷◌, some, Bytes, ok, >>=_known,
  ok_or_known, is_ok, codes, arith,
}
use g_kms.State.{AppState}
use g_kms.Wire.{shard_signing_msg}
use g_kms.Gossip.{AuthContext}
use g_kms.Auth.{Authority}
use g_kms.Auth.Members.{IsMember}
use g_kms.Membership.{position}
use g_kms.Reshare.{genesis_epoch}
use g_kms.Formation.{Contact, decrypted, request_shard_from_peer}
use g_kms.Service.{
  Ecies, Status, Call, addr_bytes, numbered, init_start_node, caller, sealed_shard, assign_pending,
  request_shard,
}
use g_kms.Service.Client.{contact_of}
use g_kms.Service.Partials.{SignsAs, DecryptsFor, verify_cluster_response_ok}

get_elem?-numbered :
    (from : ℕ) (shares : List Bytes) (i : ℕ) {bytes : Bytes}
    → get_elem? shares i ≡ some bytes
    → get_elem? (numbered from shares) i ≡ some (from + i, bytes)
get_elem?-numbered from [] i h = ground arith
get_elem?-numbered from (share ∷ shares) zero {bytes} h =
    let e : share ≡ bytes = ground arith in
    let n : from ≡ from + 0 = omega arith in
    ap (λ k. some (from, k)) e ∙ ap (λ k. some (k, bytes)) n
get_elem?-numbered from (share ∷ shares) (suc i) {bytes} h =
    let n : suc from + i ≡ from + suc i = omega arith in
    get_elem?-numbered (suc from) shares i h ∙ ap (λ k. some (k, bytes)) n

module _ (x : Ecies) (server_key client_key : Bytes) (server client : Authority) (pubkey : Bytes)
    (ctx : AuthContext) where
  -- What the caller makes of a share that is sealed for it.
  sealed_shard-request_shard_from_peer :
      (index : ℕ) (bytes ciphertext sig : Bytes)
      → SignsAs x server_key client pubkey
      → IsMember client (client.eth_address pubkey)
      → DecryptsFor x ctx.caller_pubkey client_key
      → x.encrypt ctx.caller_pubkey bytes ≡ some ciphertext
      → x.sign_bytes server_key (
          shard_signing_msg
            (codes "RequestShard")
            (addr_bytes (server.eth_address ctx.caller_pubkey))
            index
            ciphertext)
        ≡ some sig
      → request_shard_from_peer (
          contact_of x client_key client (server.eth_address ctx.caller_pubkey) (
            sealed_shard x server_key server
              (codes "RequestShard")
              ctx.caller_pubkey
              (server.eth_address ctx.caller_pubkey)
              index
              bytes))
        ≡ ok (record { shard_index = index; shard_bytes = bytes; epoch = genesis_epoch })
  unfolding request_shard_from_peer contact_of
  sealed_shard-request_shard_from_peer index bytes ciphertext sig signs member decrypts encrypted
        signed =
      let addr = server.eth_address ctx.caller_pubkey in
      let msg = shard_signing_msg (codes "RequestShard") (addr_bytes addr) index ciphertext in
      let (len, recovers) = signs msg sig signed in
      let vouched = verify_cluster_response_ok client msg sig (len, pubkey, recovers, member) in
      ap (λ r. request_shard_from_peer (contact_of x client_key client addr r))
        (ok_or_known (x.encrypt ctx.caller_pubkey bytes) Status.internal _ encrypted
          ∙ ok_or_known (x.sign_bytes server_key msg) Status.internal _ signed)
      ∙ ap
          (λ v.
            request_shard_from_peer
              (Contact.responded index (is_ok v) (x.decrypt client_key ciphertext)))
          vouched
      ∙ ap (decrypted index) (decrypts bytes ciphertext encrypted)

  -- Initial shares: from a node that has just split a master and that it accepts as a member, the
  -- caller at a position of the node list gets the share of that position, counted from one, at
  -- the genesis epoch, as long as encryption to it and signing work.
  request_shard-init_start_node :
      (call : Call) (node_list : List ℕ) (shares : List Bytes) (s : AppState) (pos : ℕ)
      (bytes ciphertext sig : Bytes)
      → SignsAs x server_key client pubkey
      → IsMember client (client.eth_address pubkey)
      → DecryptsFor x ctx.caller_pubkey client_key
      → caller x server_key server call (codes "RequestShard") s ≡ ok ctx
      → position (server.eth_address ctx.caller_pubkey) 0 node_list ≡ some pos
      → get_elem? shares pos ≡ some bytes
      → x.encrypt ctx.caller_pubkey bytes ≡ some ciphertext
      → x.sign_bytes server_key (
          shard_signing_msg
            (codes "RequestShard")
            (addr_bytes (server.eth_address ctx.caller_pubkey))
            (1 + pos)
            ciphertext)
        ≡ some sig
      → request_shard_from_peer (
          contact_of x client_key client (server.eth_address ctx.caller_pubkey) (
            request_shard x server_key server call
              (ok node_list)
              (init_start_node (some shares) s).1))
        ≡ ok (record { shard_index = 1 + pos; shard_bytes = bytes; epoch = genesis_epoch })
  unfolding request_shard init_start_node caller assign_pending
  request_shard-init_start_node call node_list [] s pos bytes ciphertext sig signs member decrypts
        authenticated found there encrypted signed =
      ground arith
  request_shard-init_start_node call node_list (first ∷ shares) s pos bytes ciphertext sig signs
        member decrypts authenticated found there encrypted signed =
      let addr = server.eth_address ctx.caller_pubkey in
      ap (λ r. request_shard_from_peer (contact_of x client_key client addr r))
        (>>=_known (caller x server_key server call (codes "RequestShard") s) _ authenticated
          ∙ ok_or_known (position addr 0 node_list) Status.permission_denied _ found
          ∙ ok_or_known (get_elem? (numbered 1 (first ∷ shares)) pos) Status.internal _
              (get_elem?-numbered 1 (first ∷ shares) pos there))
      ∙ sealed_shard-request_shard_from_peer (1 + pos) bytes ciphertext sig signs member decrypts
          encrypted signed
