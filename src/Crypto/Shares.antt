-- ===== src/Crypto/Shares.antt =====
-- The shares that a node stores over its life (src/init.rs, `run_genesis`, `run_reshare_recovery`,
-- `run_reshare_dealer`; src/crypto.rs): always those of the master that a derivation needs.
use g_kms.Prelude.{
  ℕ, ◌≡◌, refl, ap, ◌∙◌, sym, subst, Bool-cases, inl, inr, List, map, Option, Option-cases, none,
  some, Result-cases, ok, Bytes, ok_or_known, ◌>>◌, arith,
}
use g_kms.State.{AppState, ShardState, known_epoch}
use g_kms.Membership.{Membership, SessionPeer, leading_dealers, position}
use g_kms.Reshare.{
  next_epoch, genesis_epoch, keeps_master, commit, prepare_dealer, run_genesis,
  run_reshare_recovery, run_reshare_dealer, recovery_gate, parameters, in_session,
}
use g_kms.Crypto.Bls.{
  BlsLibrary, BlsError, SecretKeyShare, stored_bytes, own_scalar, share_from_bytes, share_to_bytes,
  gennaro_share_to_blsful, blsful_share_scalar,
}
use g_kms.Crypto.Derivation.{IsIndex, IsShare}
use g_kms.Dkg.{Protocol, Rounds, run_session}
use g_kms.Dkg.Parts.{
  Participants, failed_session, keys_of, session_from, genesis_id, genesis_session,
  recovery_session, with_index, with_scalar, with_share, for_dealer, dealer_session,
}

module _ (l : BlsLibrary) (p : Protocol) (x : Participants l p) (f : ℕ → ℕ → l.Scalar)
    (seal : ShardState → Bytes → Option Bytes) where
  -- The library's output in a session that ends well, if the participant is made at all: the value of the
  -- epoch at this place, as a scalar.
  abbrev pub Yields :
      Bytes → List SessionPeer → Rounds → AppState → Option p.Participant → ℕ → ℕ → Type 0
  Yields session_id peers env s none epoch own_id = Unit
  Yields session_id peers env s (some participant) epoch own_id =
      (output : p.Output)
      → (run_session p session_id participant peers env s).0 ≡ ok output
      → x.secret_share output ≡ f epoch own_id

  -- The share that a node holds, if any, is one of the master's.
  abbrev pub Holds : Option ShardState → Type 0
  Holds none = Unit
  Holds (some o) = IsShare l f o

  -- A dealer's participant that is fed with the value of its share at its epoch.
  abbrev pub fed : AppState → ShardState → ℕ → List ℕ → ℕ → Option p.Participant
  fed s o own_id dealer_ids index =
      x.with_secret own_id s.config.threshold s.config.total_nodes (f o.epoch o.shard_index)
        (map l.scalar dealer_ids) index

  -- The life of a node, as far as its sessions give it its shares: a genesis, a recovery or a dealer's
  -- part, whatever comes of it, while the other tasks of the node run on, and what leaves the share as
  -- it is. Of the library it is known what it outputs, of a dealer only where that has been fed right.
  pub data Life : AppState → AppState → Type 0 where
    other : (s t : AppState) → t.shard ≡ s.shard → Life s t
    next : (s t u : AppState) → Life s t → Life t u → Life s u
    genesis :
        (own_id threshold total : ℕ) (peers : List SessionPeer) (env : Rounds) (s : AppState)
        → IsIndex own_id
        → Yields
            (genesis_id l p x s)
            peers
            env
            s
            (x.new_secret own_id threshold total)
            genesis_epoch
            own_id
        → Life s ((genesis_session l p x own_id threshold total peers env s).meanwhile s)
        → Life s
            (run_genesis seal own_id threshold total
              (genesis_session l p x own_id threshold total peers env s)
              s).1
    recovery :
        (session_id : Bytes) (m : Membership) (env : Rounds) (s : AppState)
        → IsIndex m.own_id
        → Yields session_id
            (leading_dealers m)
            env
            s
            (x.new_refresh m.own_id m.threshold m.total)
            (next_epoch (known_epoch s))
            m.own_id
        → Life s ((recovery_session l p x session_id m env s).meanwhile s)
        → Life s (run_reshare_recovery seal m (recovery_session l p x session_id m env s) s).1
    dealing :
        (session_id : Bytes) (node_list : List ℕ) (recovering_id : ℕ) (dealer_ids : List ℕ)
        (new_epoch : ℕ) (env : Rounds) (s : AppState)
        → ((own_id : ℕ) (peers : List SessionPeer)
            → prepare_dealer node_list recovering_id dealer_ids new_epoch s ≡ ok (own_id, peers)
            → IsIndex own_id)
        → ((own_id : ℕ) (peers : List SessionPeer) (o : ShardState) (index : ℕ)
            → prepare_dealer node_list recovering_id dealer_ids new_epoch s ≡ ok (own_id, peers)
            → s.shard ≡ some o
            → Yields session_id peers env s (fed s o own_id dealer_ids index) new_epoch own_id)
        → Life s (
            (dealer_session l p x session_id node_list recovering_id dealer_ids new_epoch env
                s).meanwhile
              s)
        → Life s
            (run_reshare_dealer seal node_list recovering_id dealer_ids new_epoch
              (dealer_session l p x session_id node_list recovering_id dealer_ids new_epoch env s)
              s).1

  -- The bytes that a session gives are those of the value at this place.
  abbrev GivesKeys : Option (Bytes × Bytes) → ℕ → ℕ → Type 0
  GivesKeys keys epoch own_id =
      (share pk : Bytes) → keys ≡ some (share, pk) → share ≡ stored_bytes l own_id (f epoch own_id)

  failed-GivesKeys : (epoch own_id : ℕ) → GivesKeys failed_session.keys epoch own_id
  failed-GivesKeys epoch own_id share pk h = absurd (ground arith)

  session_from-GivesKeys :
      (session_id : Bytes) (own_id : ℕ) (peers : List SessionPeer) (env : Rounds)
      (made : Option p.Participant) (s : AppState) (epoch : ℕ)
      → Yields session_id peers env s made epoch own_id
      → GivesKeys (session_from l p x session_id own_id peers env made s).keys epoch own_id
  session_from-GivesKeys session_id own_id peers env none s epoch yields share pk h =
      absurd (ground arith)
  session_from-GivesKeys session_id own_id peers env (some q) s epoch yields share pk h =
      let r = (run_session p session_id q peers env s).0 in
      elim (Result-cases r) [
        | inr (e, failed) ↦
            let nothing : none ≡ some (share, pk) = sym (ap (keys_of l p x own_id) failed) ∙ h in
            absurd (ground arith)
        | inl (output, done) ↦
            let keys : some (stored_bytes l own_id (x.secret_share output), x.public_bytes output)
                ≡ some (share, pk) =
              sym (ap (keys_of l p x own_id) done) ∙ h in
            let bytes : stored_bytes l own_id (x.secret_share output) ≡ share = ground arith in
            sym bytes ∙ ap (stored_bytes l own_id) (yields output done)
      ]

  module _
      (read : (share : SecretKeyShare l.Scalar)
        → l.secret_share_of (l.secret_share_bytes share) ≡ some share) where
    -- The scalar of a share of the master is the master's value.
    own_scalar-IsShare :
        (o : ShardState) → IsShare l f o → own_scalar l o ≡ ok (f o.epoch o.shard_index)
    unfolding share_from_bytes share_to_bytes gennaro_share_to_blsful blsful_share_scalar
    own_scalar-IsShare o (indexed, on) =
        ok_or_known (l.secret_share_of o.shard_bytes) BlsError.invalid_share _
          (ap l.secret_share_of on ∙ read _)

    with_index-GivesKeys :
        (session_id : Bytes) (own_id : ℕ) (peers : List SessionPeer) (dealer_ids : List ℕ)
        (env : Rounds) (s : AppState) (o : ShardState) (epoch : ℕ) (at : Option ℕ)
        → ((index : ℕ)
            → Yields session_id peers env s (fed s o own_id dealer_ids index) epoch own_id)
        → GivesKeys
            (with_index l p x session_id own_id peers dealer_ids env s
              (f o.epoch o.shard_index)
              at).keys
            epoch
            own_id
    with_index-GivesKeys session_id own_id peers dealer_ids env s o epoch none yields =
        failed-GivesKeys epoch own_id
    with_index-GivesKeys session_id own_id peers dealer_ids env s o epoch (some index) yields =
        session_from-GivesKeys session_id own_id peers env (fed s o own_id dealer_ids index) s epoch
          (yields index)

    with_share-GivesKeys :
        (session_id : Bytes) (own_id : ℕ) (peers : List SessionPeer) (dealer_ids : List ℕ)
        (env : Rounds) (s : AppState) (shard : Option ShardState) (epoch : ℕ)
        → ((o : ShardState) (index : ℕ)
            → shard ≡ some o
            → Yields session_id peers env s (fed s o own_id dealer_ids index) epoch own_id)
        → Holds shard
        → GivesKeys
            (with_share l p x session_id own_id peers dealer_ids env s shard).keys
            epoch
            own_id
    with_share-GivesKeys session_id own_id peers dealer_ids env s none epoch yields held =
        failed-GivesKeys epoch own_id
    with_share-GivesKeys session_id own_id peers dealer_ids env s (some o) epoch yields held =
        subst
          (λ r.
            GivesKeys (with_scalar l p x session_id own_id peers dealer_ids env s r).keys epoch
              own_id)
          (sym (own_scalar-IsShare o held))
          (with_index-GivesKeys session_id own_id peers dealer_ids env s o epoch
            (position own_id 0 dealer_ids) (λ index. yields o index refl))

    commit-Holds :
        (own_id epoch : ℕ) (keys : Option (Bytes × Bytes)) (s : AppState)
        → IsIndex own_id
        → GivesKeys keys epoch own_id
        → Holds s.shard
        → Holds (commit seal own_id epoch keys s).1.shard
    unfolding commit
    commit-Holds own_id epoch none s indexed gives held = held
    commit-Holds own_id epoch (some (share, pk)) s indexed gives held =
        elim (Bool-cases (keeps_master s.group_pubkey pk)) [
          | inl kept ↦ rw kept (indexed, gives share pk refl)
          | inr changed ↦ rw changed held
        ]

    -- Over its life, through genesis, recoveries and reshares that succeed or fail, while other tasks
    -- run, a node that holds no share or one of the master's never holds any other.
    pub life-Holds : (s t : AppState) → Life s t → Holds s.shard → Holds t.shard
    unfolding run_genesis run_reshare_recovery run_reshare_dealer
    life-Holds _ _ (other s t same) held = subst Holds (sym same) held
    life-Holds _ _ (next s t u first second) held =
        life-Holds t u second (life-Holds s t first held)
    life-Holds _ _ (genesis own_id threshold total peers env s indexed yields meanwhile) held =
        let made = x.new_secret own_id threshold total in
        let session = genesis_session l p x own_id threshold total peers env s in
        let left = life-Holds s (session.meanwhile s) meanwhile held in
        let gives =
          session_from-GivesKeys (genesis_id l p x s) own_id peers env made s genesis_epoch
            yields in
        elim (Result-cases (parameters threshold total)) [
          | inr (e, refused) ↦ rw refused held
          | inl (u, good) ↦ elim (Option-cases session.keys) [
            | inl failed ↦ rw good (rw failed left)
            | inr ((share, pk), out) ↦ rw good (rw out (indexed, gives share pk out))
          ]
        ]
    life-Holds _ _ (recovery session_id m env s indexed yields meanwhile) held =
        let made = x.new_refresh m.own_id m.threshold m.total in
        let session = recovery_session l p x session_id m env s in
        let left = life-Holds s (session.meanwhile s) meanwhile held in
        let epoch = next_epoch (known_epoch s) in
        let gives =
          session_from-GivesKeys session_id m.own_id (leading_dealers m) env made s epoch yields in
        elim (Result-cases (recovery_gate m >> parameters m.threshold m.total)) [
          | inr (e, refused) ↦ rw refused held
          | inl (u, good) ↦
              rw good
                (commit-Holds m.own_id epoch session.keys (session.meanwhile s) indexed gives left)
        ]
    life-Holds _ _
          (dealing session_id node_list recovering_id dealer_ids new_epoch env s indexed yields
            meanwhile)
          held =
        let session =
          dealer_session l p x session_id node_list recovering_id dealer_ids new_epoch env s in
        let left = life-Holds s (session.meanwhile s) meanwhile held in
        elim (Result-cases (prepare_dealer node_list recovering_id dealer_ids new_epoch s)) [
          | inr (e, refused) ↦ rw refused held
          | inl ((own_id, peers), good) ↦
              let gives : GivesKeys session.keys new_epoch own_id =
                subst
                  (λ r.
                    GivesKeys (for_dealer l p x session_id dealer_ids env s r).keys new_epoch
                      own_id)
                  (sym good)
                  (with_share-GivesKeys session_id own_id peers dealer_ids env s s.shard new_epoch
                    (λ o index at. yields own_id peers o index good at) held) in
              let kept =
                commit-Holds own_id new_epoch session.keys (session.meanwhile s)
                  (indexed own_id peers good) gives left in
              subst
                (λ r.
                  Holds
                    (in_session r
                      (λ (t : ℕ × List SessionPeer) (s : AppState).
                        commit seal t.0 new_epoch session.keys (session.meanwhile s))
                      s).1.shard)
                (sym good) kept
        ]

    -- A node that starts with no share, or with one of the master's, holds at any time of its life the
    -- master's share at its index and epoch, as a derivation needs it; and what it feeds into a reshare
    -- as a dealer is the master's value of that share. The library is trusted to give the right scalar
    -- where a participant's session ends well, as a dealer only if it was fed the right one; places
    -- are u32 that are not 0, and shares are read back as they were written.
    pub life-own_scalar :
        (s t : AppState) (o : ShardState) (session_id : Bytes) (own_id : ℕ)
        (peers : List SessionPeer) (dealer_ids : List ℕ) (env : Rounds)
        → Life s t
        → Holds s.shard
        → t.shard ≡ some o
        → IsShare l f o
          × (own_scalar l o ≡ ok (f o.epoch o.shard_index))
          × (with_share l p x session_id own_id peers dealer_ids env t t.shard
              ≡ with_index l p x session_id own_id peers dealer_ids env t
                  (f o.epoch o.shard_index)
                  (position own_id 0 dealer_ids))
    life-own_scalar s t o session_id own_id peers dealer_ids env life held holds =
        let on : IsShare l f o = subst Holds holds (life-Holds s t life held) in
        let scalar = own_scalar-IsShare o on in
        (
          on,
          scalar,
          ap (with_share l p x session_id own_id peers dealer_ids env t) holds
              ∙ ap (with_scalar l p x session_id own_id peers dealer_ids env t) scalar,
        )
