-- ===== src/Service/Derivation.antt =====
-- A derivation over the whole cluster: the handlers of the peers, the calls to them and the collection
-- of their partials (src/grpc.rs).
use g_kms.Prelude.{
  ℕ, ◌≤◌, ◌==◌, ==_iff, ◌≡◌, refl, sym, ap, subst, ◌∙◌, true, false, ◌&&◌, Bool-cases, inl, inr,
  if◌then◌else◌, any, mem, Distinct, All, length, map, List, [], ◌∷◌, Option, none, some, Bytes,
  Result, ok, codes, arith, is_some, unwrap_or,
}
use g_kms.State.{AppState, ShardState}
use g_kms.Wire.{dprf_message}
use g_kms.Gossip.{AuthContext}
use g_kms.Auth.{Authority}
use g_kms.Auth.Members.{IsMember}
use g_kms.Derive.{Bls, Reply, DeriveTrace, collect_and_dprf}
use g_kms.Derive.Collect.{IsGenuine, IsGenuineAs}
use g_kms.Derive.Enough.{delivers, garbles, serves}
use g_kms.Derive.Key.{Prepared}
use g_kms.Derive.Live.{Combines, collect_and_dprf-succeeds}
use g_kms.Service.{Ecies, Status, Call, EncryptedPartial, caller, get_dprf_partial}
use g_kms.Service.Client.{ask_partial}
use g_kms.Service.Partials.{SignsAs, DecryptsFor, ask_partial-get_dprf_partial}

-- A peer as it is called: its key and public key, how it authenticates, the call and its state.
pub record Peer : Type 0 where
  pub private_key : Bytes
  pub pubkey : Bytes
  pub authority : Authority
  pub call : Call
  pub state : AppState

All-mem : (P : ℕ → Type 0) (xs : List ℕ) → ((x : ℕ) → mem x xs ≡ true → P x) → All P xs
All-mem P [] h = tt
All-mem P (x ∷ xs) h =
    (h x (ground (arith, (==_iff x x).1 refl)), All-mem P xs (λ y m. h y (ground (arith, m))))

module _ (x : Ecies) (b : Bls) (partial_to_bytes : b.Partial → Bytes) (own_key : Bytes)
    (client : Authority) (own_addr : ℕ) (app_id material : Bytes)
    (OnPolynomial : ShardState → Type 0) where
  -- A partial of the message from a share of the polynomial of an epoch.
  abbrev pub IsPartial : ℕ → ℕ → b.Partial → Type 0
  IsPartial epoch index partial =
      (o : ShardState) × OnPolynomial o
      × (o.epoch ≡ epoch)
      × (o.shard_index ≡ index)
      × (share : b.Share) × (b.share_from_bytes o.shard_bytes ≡ some share)
      × (b.sign share (dprf_message app_id material) ≡ some partial)

  abbrev pub answer_of : Peer → Result Status EncryptedPartial
  answer_of p =
      get_dprf_partial x p.private_key p.authority b partial_to_bytes p.call app_id material p.state

  -- The reply of a peer that is down, or of one that holds a share.
  abbrev pub reply_of : Option (Peer × ShardState) → Reply
  reply_of none = Reply.failed
  reply_of (some (p, o)) = ask_partial x own_key client own_addr (answer_of p)

  -- A peer that is up is a member, knows this node for one, holds a share of its epoch's polynomial,
  -- and its libraries work.
  abbrev pub IsUp : Option (Peer × ShardState) → Type 0
  IsUp none = Unit
  IsUp (some (p, o)) =
      SignsAs x p.private_key client p.pubkey
      × IsMember client (client.eth_address p.pubkey)
      × (ctx : AuthContext) × (caller x p.private_key p.authority p.call (codes "GetDprfPartial")
            p.state
          ≡ ok ctx)
      × (ctx.caller_eth_addr ≡ own_addr)
      × DecryptsFor x ctx.caller_pubkey own_key
      × (p.state.shard ≡ some o)
      × OnPolynomial o
      × (resp : EncryptedPartial) × (answer_of p ≡ ok resp)

  abbrev pub indices_at : ℕ → List (Option (Peer × ShardState)) → List ℕ
  indices_at e [] = []
  indices_at e (none ∷ peers) = indices_at e peers
  indices_at e (some (p, o) ∷ peers) =
      let rest = indices_at e peers in if o.epoch == e then o.shard_index ∷ rest else rest

  reply_of-IsPartial :
      (p : Peer) (o : ShardState)
      → IsUp (some (p, o))
      → (partial : b.Partial) × IsPartial o.epoch o.shard_index partial
        × (reply_of (some (p, o)) ≡ Reply.answered o.shard_index (partial_to_bytes partial) o.epoch)
  reply_of-IsPartial p o (signs, member, ctx, known, same, decrypts, holds, on, resp, answered) =
      let (own, share, partial, holds', parsed, evaluated, taken) =
        ask_partial-get_dprf_partial x p.private_key own_key p.authority client p.pubkey b
          partial_to_bytes p.call app_id material p.state ctx resp signs member decrypts known
          answered in
      let one : own ≡ o = ap (unwrap_or o) (sym holds' ∙ holds) in
      (
        partial,
        (
          own,
          subst OnPolynomial (sym one) on,
          ap (λ q. q.epoch) one,
          ap (λ q. q.shard_index) one,
          share,
          parsed,
          evaluated,
        ),
        ap (ask_partial x own_key client own_addr) answered
            ∙ ap (λ z. ask_partial x own_key client z (ok resp)) (sym same)
            ∙ taken
            ∙ ap (λ q. Reply.answered q.shard_index (partial_to_bytes partial) q.epoch) one,
      )

  module _ (reads : (q : b.Partial) → b.partial_from_bytes (partial_to_bytes q) ≡ some q) where
    genuine :
        (peers : List (Option (Peer × ShardState)))
        → All IsUp peers
        → All (IsGenuine IsPartial b.partial_from_bytes) (map reply_of peers)
    genuine [] h = tt
    genuine (none ∷ peers) h = (tt, genuine peers h.1)
    genuine (some (p, o) ∷ peers) h =
        let (partial, on, reply) = reply_of-IsPartial p o h.0 in
        (
          subst (IsGenuine IsPartial b.partial_from_bytes) (sym reply)
              (subst (IsGenuineAs IsPartial o.epoch o.shard_index) (sym (reads partial)) on),
          genuine peers h.1,
        )

    clean :
        (e id : ℕ) (peers : List (Option (Peer × ShardState)))
        → All IsUp peers
        → any (garbles b.partial_from_bytes e id) (map reply_of peers) ≡ false
    clean e id [] h = refl
    clean e id (none ∷ peers) h = clean e id peers h.1
    clean e id (some (p, o) ∷ peers) h =
        let (partial, on, reply) = reply_of-IsPartial p o h.0 in
        let fits : is_some (b.partial_from_bytes (partial_to_bytes partial)) ≡ true =
          ap is_some (reads partial) in
        let one : garbles b.partial_from_bytes e id (reply_of (some (p, o))) ≡ false =
          ap (garbles b.partial_from_bytes e id) reply ∙ ground (arith, fits) in
        ground (arith, one, clean e id peers h.1)

    delivered :
        (e id : ℕ) (peers : List (Option (Peer × ShardState)))
        → All IsUp peers
        → mem id (indices_at e peers) ≡ true
        → any (delivers b.partial_from_bytes e id) (map reply_of peers) ≡ true
    delivered e id [] h m = ground arith
    delivered e id (none ∷ peers) h m = delivered e id peers h.1 m
    delivered e id (some (p, o) ∷ peers) h m =
        let (partial, on, reply) = reply_of-IsPartial p o h.0 in
        let fits : is_some (b.partial_from_bytes (partial_to_bytes partial)) ≡ true =
          ap is_some (reads partial) in
        let one : delivers b.partial_from_bytes e id (reply_of (some (p, o)))
            ≡ (o.shard_index == id && o.epoch == e) =
          ap (delivers b.partial_from_bytes e id) reply ∙ ground (arith, fits) in
        elim (Bool-cases (mem id (indices_at e peers))) [
          | inl later ↦ ground (arith, delivered e id peers h.1 later)
          | inr absent ↦ ground (arith, one)
        ]

    serving :
        (own : ShardState) (id : ℕ) (peers : List (Option (Peer × ShardState)))
        → All IsUp peers
        → mem id (own.shard_index ∷ indices_at own.epoch peers) ≡ true
        → serves b.partial_from_bytes own.shard_index own.epoch (map reply_of peers) own.epoch id
          ≡ true
    serving own id peers h m = elim (Bool-cases (mem id (indices_at own.epoch peers))) [
      | inl there ↦ ground (arith, delivered own.epoch id peers h there)
      | inr absent ↦ ground (arith, (==_iff own.epoch own.epoch).1 refl)
    ]

    -- Cluster-wide derivation: a node that holds a share and knows the group public key gets the key
    -- when, with its own, at least a threshold of distinct shares of its epoch are held by peers
    -- that are up; the others may be down or at other epochs, and the replies may come in any
    -- order. A peer that is up is accepted as a member and accepts this node, and its encryption
    -- and signature work; partials are read back as they were written, and those of a threshold of
    -- distinct shares of one epoch combine to the signature of the key.
    pub collect_and_dprf-answer_of :
        (own : ShardState) (threshold : ℕ) (pk sig : Bytes)
        (peers : List (Option (Peer × ShardState))) (p : Prepared b own app_id material)
        (sigma : b.Sigma)
        → OnPolynomial own
        → All IsUp peers
        → Distinct (own.shard_index ∷ indices_at own.epoch peers)
        → threshold ≤ length (own.shard_index ∷ indices_at own.epoch peers)
        → Combines b IsPartial threshold pk (dprf_message app_id material) sigma
        → (trace : DeriveTrace) × (collect_and_dprf b
              (some own)
              threshold
              (some pk)
              (some sig)
              app_id
              material
              (map reply_of peers)
            ≡ ok (b.app_key sigma, trace))
    collect_and_dprf-answer_of own threshold pk sig peers p sigma on up distinct enough law =
        let ids = own.shard_index ∷ indices_at own.epoch peers in
        collect_and_dprf-succeeds b IsPartial own threshold pk sig app_id material
          (map reply_of peers) own.epoch ids p sigma law
          (own, on, refl, refl, p.share, p.share_parsed, p.signed) (genuine peers up) distinct
          enough (All-mem _ ids (λ id m. serving own id peers up m))
          (All-mem _ ids (λ id m. clean own.epoch id peers up))
