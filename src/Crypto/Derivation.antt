-- ===== src/Crypto/Derivation.antt =====
-- What key the cluster derives (src/crypto.rs, src/grpc.rs): the one of the master and the message,
-- at every epoch.
use g_kms.Prelude.{
  ℕ, ◌≤◌, ◌<◌, ◌^◌, ◌≡◌, refl, ap, ◌∙◌, sym, subst, true, is_ok, List, [], ◌∷◌, map, length, All,
  Distinct, Option, none, some, ok, Bytes, codes, arith, ok_or, ok_or_known, ensure, Bool, false,
}
use g_kms.State.{ShardState}
use g_kms.Wire.{dprf_message}
use g_kms.Auth.{Authority}
use g_kms.Auth.Members.{IsMember}
use g_kms.Derive.{Reply, DeriveTrace, collect_and_dprf}
use g_kms.Derive.Step.{Matched}
use g_kms.Derive.Live.{Combines}
use g_kms.Service.{EncryptedPartial, caller}
use g_kms.Service.Derivation.{
  Peer, IsPartial, IsUp, answer_of, reply_of, indices_at, collect_and_dprf-answer_of,
}
use g_kms.Crypto.{
  Secp256k1, pubkey_from_private, eth_address_from_pubkey, with_recovery, ecies, to_option,
}
use g_kms.Crypto.Signing.{IsEcdsa}
use g_kms.Crypto.Members.{IsEcies, signed-recovered, ecies-DecryptsFor, to_option-ok_or}
use g_kms.Crypto.Bls.{
  BlsLibrary, BlsError, SecretKeyShare, threshold_bls, stored_bytes, gennaro_share_to_blsful,
  sigma_to_app_key, share_to_bytes, share_from_bytes, dprf_partial, dprf_sigma, dprf_verify,
  partial_to_bytes, partial_from_bytes,
}

-- The index of a share: a u32 that is not 0.
abbrev pub IsIndex : ℕ → Type 0
IsIndex i = (1 ≤ i) × (i < 2 ^ 32)

-- Threshold BLS as the library documents it, for shares `f e i` of one master at each epoch: shares
-- and partials are read back, a share evaluates in the scheme `Basic`, and a threshold of such partials
-- of distinct shares of one epoch combine to the master's signature in that scheme, which the
-- master's public key verifies.
pub record IsThreshold (l : BlsLibrary) (f : ℕ → ℕ → l.Scalar) (threshold : ℕ) (pk : Bytes)
    (signature : Bytes → l.Signature) : Type 0 where
  pub share_read :
      (share : SecretKeyShare l.Scalar)
      → l.secret_share_of (l.secret_share_bytes share) ≡ some share
  pub partial_read :
      (q : l.SignatureShare) → l.signature_share_of (l.signature_share_bytes q) ≡ some q
  pub evaluates :
      (e i : ℕ) (msg : Bytes)
      → IsIndex i
      → (q : l.SignatureShare) × (l.sign (gennaro_share_to_blsful l i (f e i)) msg ≡ some q)
  pub combines :
      (msg : Bytes) (e : ℕ) (is : List ℕ) (ps : List l.SignatureShare)
      → Distinct is
      → threshold ≤ length is
      → Matched
          (λ i q. IsIndex i × (l.sign (gennaro_share_to_blsful l i (f e i)) msg ≡ some q))
          is
          ps
      → l.from_shares ps ≡ some (signature msg)
  pub group_pubkey : l.PublicKey
  pub pk_read : l.public_key pk ≡ some group_pubkey
  pub verifies : (msg : Bytes) → l.verify (signature msg) group_pubkey msg ≡ true

is_ok-ensure : {E : Type 0} (b : Bool) (e : E) → is_ok (ensure b e) ≡ b
is_ok-ensure true e = refl
is_ok-ensure false e = refl

module _ (l : BlsLibrary) (f : ℕ → ℕ → l.Scalar) where
  -- A stored share is one of the master's at its epoch and index.
  abbrev pub IsShare : ShardState → Type 0
  IsShare o =
      IsIndex o.shard_index
      × (o.shard_bytes ≡ stored_bytes l o.shard_index (f o.epoch o.shard_index))

  share_of-IsShare :
      (threshold : ℕ) (pk : Bytes) (signature : Bytes → l.Signature)
      → IsThreshold l f threshold pk signature
      → (o : ShardState) → IsShare o
      → to_option (share_from_bytes l o.shard_bytes)
        ≡ some (gennaro_share_to_blsful l o.shard_index (f o.epoch o.shard_index))
  unfolding share_from_bytes share_to_bytes
  share_of-IsShare threshold pk signature law o on =
      ap (λ b. to_option (ok_or (l.secret_share_of b) BlsError.invalid_share)) on.1
      ∙ ap (λ r. to_option (ok_or r BlsError.invalid_share)) (law.share_read _)

module _ (l : BlsLibrary) (f : ℕ → ℕ → l.Scalar) (threshold : ℕ) (pk : Bytes)
    (signature : Bytes → l.Signature) (law : IsThreshold l f threshold pk signature) (k : Secp256k1)
    (ecdsa : IsEcdsa k) (encrypts : IsEcies k) (own_key own_pubkey : Bytes)
    (own_known : pubkey_from_private k own_key ≡ ok own_pubkey) (client : Authority)
    (app_id material : Bytes) where
  abbrev own_addr : ℕ
  own_addr = eth_address_from_pubkey k own_pubkey

  abbrev Genuine : ℕ → ℕ → l.SignatureShare → Type 0
  Genuine =
      IsPartial (ecies k) (threshold_bls l) (partial_to_bytes l) own_key (with_recovery k client)
        own_addr app_id material (IsShare l f)

  -- A genuine partial is the one of the share at its index.
  partial-evaluates :
      (e i : ℕ) (q : l.SignatureShare)
      → Genuine e i q
      → IsIndex i
        × (l.sign (gennaro_share_to_blsful l i (f e i)) (dprf_message app_id material) ≡ some q)
  unfolding dprf_partial
  partial-evaluates e i q (o, on, epoch, index, share, parsed, signed) =
      let msg = dprf_message app_id material in
      let whole = sym parsed ∙ share_of-IsShare l f threshold pk signature law o on in
      let same : share ≡ gennaro_share_to_blsful l o.shard_index (f o.epoch o.shard_index) =
        ground (arith, whole) in
      (
        subst IsIndex index on.0,
        ap (λ t. l.sign (gennaro_share_to_blsful l i (f t i)) msg) (sym epoch)
            ∙ ap (λ t. l.sign (gennaro_share_to_blsful l t (f o.epoch t)) msg) (sym index)
            ∙ ap (λ t. l.sign t msg) (sym same)
            ∙ sym (to_option-ok_or (l.sign share msg) BlsError.not_signed)
            ∙ signed,
      )

  shares-Matched :
      (e : ℕ) (is : List ℕ) (ps : List l.SignatureShare)
      → Matched (Genuine e) is ps
      → Matched
          (λ i q.
            IsIndex i
            × (l.sign (gennaro_share_to_blsful l i (f e i)) (dprf_message app_id material)
                ≡ some q))
          is
          ps
  shares-Matched e [] [] m = tt
  shares-Matched e [] (q ∷ ps) m = m
  shares-Matched e (i ∷ is) [] m = m
  shares-Matched e (i ∷ is) (q ∷ ps) (g, m) = (partial-evaluates e i q g, shares-Matched e is ps m)

  verify-signature : (msg : Bytes) → is_ok (dprf_verify l (signature msg) pk msg) ≡ true
  unfolding dprf_verify
  verify-signature msg =
      ap is_ok (ok_or_known (l.public_key pk) BlsError.invalid_group_pubkey _ law.pk_read)
      ∙ is_ok-ensure (l.verify (signature msg) law.group_pubkey msg) BlsError.not_verified
      ∙ law.verifies msg

  partials-Combine :
      Combines
        (threshold_bls l)
        Genuine
        threshold
        pk
        (dprf_message app_id material)
        (signature (dprf_message app_id material))
  unfolding dprf_sigma
  partials-Combine e is ps distinct enough matched =
      let msg = dprf_message app_id material in
      (
        ap (λ o. to_option (ok_or o BlsError.not_combined))
            (law.combines msg e is ps distinct enough (shares-Matched e is ps matched)),
        verify-signature msg,
      )

  -- A peer that is up, as the code's own functions on keys have it.
  abbrev pub IsServing : Option (Peer × ShardState) → Type 0
  IsServing none = Unit
  IsServing (some (p, o)) =
      (pubkey_from_private k p.private_key ≡ ok p.pubkey)
      × IsMember client (eth_address_from_pubkey k p.pubkey)
      × (caller (ecies k) p.private_key p.authority p.call (codes "GetDprfPartial") p.state
          ≡ ok (record { caller_pubkey = own_pubkey; caller_eth_addr = own_addr }))
      × (p.state.shard ≡ some o)
      × IsShare l f o
      × (resp : EncryptedPartial) × (answer_of (ecies k) (threshold_bls l) (partial_to_bytes l)
            own_key (with_recovery k client) own_addr app_id material (IsShare l f) p
          ≡ ok resp)

  abbrev Up : Option (Peer × ShardState) → Type 0
  Up =
      IsUp (ecies k) (threshold_bls l) (partial_to_bytes l) own_key (with_recovery k client)
        own_addr app_id material (IsShare l f)

  serving-Up : (peers : List (Option (Peer × ShardState))) → All IsServing peers → All Up peers
  serving-Up [] h = tt
  serving-Up (none ∷ peers) h = (tt, serving-Up peers h.1)
  serving-Up (some (p, o) ∷ peers) ((known, member, called, holds, on, resp, answer), h) = (
    (
      signed-recovered k ecdsa p.private_key p.pubkey known,
      member,
      record { caller_pubkey = own_pubkey; caller_eth_addr = own_addr },
      called,
      refl,
      ecies-DecryptsFor k own_key own_pubkey encrypts own_known,
      holds,
      on,
      resp,
      answer,
    ),
    serving-Up peers h,
  )

  -- The answers of the peers, and the indices of those that hold a share of an epoch.
  abbrev pub replies : List (Option (Peer × ShardState)) → List Reply
  replies peers =
      map
        (reply_of (ecies k) (threshold_bls l) (partial_to_bytes l) own_key (with_recovery k client)
          own_addr app_id material (IsShare l f))
        peers

  abbrev pub indices : ℕ → List (Option (Peer × ShardState)) → List ℕ
  indices =
      indices_at (ecies k) (threshold_bls l) (partial_to_bytes l) own_key (with_recovery k client)
        own_addr app_id material (IsShare l f)

  -- The key of an application: a node that holds a share of the master gets, for an app id and a
  -- material, the key that HKDF derives from the master's signature of their message, whatever the epoch,
  -- when with its own at least a threshold of distinct shares of its epoch are held by peers that
  -- serve it. The other peers may be down or at other epochs of the same master. A peer that serves
  -- is in this node's list, accepts this node as the holder of its key, and answers.
  pub collect_and_dprf-sigma_to_app_key :
      (own : ShardState) (sig : Bytes) (peers : List (Option (Peer × ShardState)))
      → IsShare l f own
      → All IsServing peers
      → Distinct (own.shard_index ∷ indices own.epoch peers)
      → threshold ≤ length (own.shard_index ∷ indices own.epoch peers)
      → (trace : DeriveTrace) × (collect_and_dprf
            (threshold_bls l)
            (some own)
            threshold
            (some pk)
            (some sig)
            app_id
            material
            (replies peers)
          ≡ ok (sigma_to_app_key l (signature (dprf_message app_id material)), trace))
  unfolding dprf_partial partial_to_bytes partial_from_bytes
  collect_and_dprf-sigma_to_app_key own sig peers on serving distinct enough =
      let msg = dprf_message app_id material in
      let share = gennaro_share_to_blsful l own.shard_index (f own.epoch own.shard_index) in
      let (partial, signed) = law.evaluates own.epoch own.shard_index msg on.0 in
      collect_and_dprf-answer_of (ecies k) (threshold_bls l) (partial_to_bytes l) own_key
        (with_recovery k client) own_addr app_id material (IsShare l f)
        (λ q. ap (λ o. to_option (ok_or o BlsError.invalid_partial)) (law.partial_read q)) own
        threshold pk sig peers
        (record {
          share = share;
          partial = partial;
          share_parsed = share_of-IsShare l f threshold pk signature law own on;
          signed = ap (λ o. to_option (ok_or o BlsError.not_signed)) signed;
        })
        (signature msg) on (serving-Up peers serving) distinct enough partials-Combine
