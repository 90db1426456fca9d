-- ===== src/Reshare/Commit.antt =====
-- What a reshare leaves in the state of a node that takes part (src/init.rs).
use g_kms.Prelude.{
  ℕ, ◌+◌, ◌^◌, ==_iff, ◌/◌, ◌≤◌, ◌<◌, ◌==◌, leb, ◌≡◌, ◌⊎◌, inl, inr, refl, sym, ap, ◌∙◌, subst,
  true, false, not, Bool-cases, Option-cases, Result, ok, err, Result-cases, >>=-eq-ok, ◌>>◌, List,
  [], ◌∷◌, ◌++◌, length, filter, All, mem, is_some, is_empty, max, Option, none, some, Bytes,
  beq_bytes_iff, arith, if◌then◌else◌,
}
use g_kms.State.{AppState, ShardState, epoch_of, known_epoch}
use g_kms.Membership.{
  Membership, SessionPeer, leading_dealers, position, resolve_peers, assemble_participants,
}
use g_kms.Reshare.{
  ReshareError, Session, or_before, new_shard, store_share, keeps_master, commit, parameters,
  recovery_gate, prepare_dealer, prepare_refresh, run_reshare_recovery, run_reshare_dealer,
  trigger_refresh, in_session, next_epoch,
}
use g_kms.Reshare.Quorum.{recovery_gate_iff}

-- The epoch is above all that were known, or has wrapped behind the last u64.
abbrev pub IsAhead : AppState → AppState → Type 0
IsAhead before after =
    (known_epoch before < epoch_of after.shard)
    ⊎ ((known_epoch before + 1 ≡ 2 ^ 64) × (epoch_of after.shard ≡ 0))

-- What a session that came out stores: its share, at the place and the epoch that were planned, and
-- the group public key that was known before, or the session's own where none was.
abbrev pub IsStored : ℕ → ℕ → Option (Bytes × Bytes) → AppState → AppState → Type 0
IsStored own_id epoch keys before after =
    (share pk : Bytes) × (keys ≡ some (share, pk))
    × (after.shard ≡ some (new_shard own_id share epoch))
    × (after.group_pubkey ≡ some pk)
    × (or_before (some pk) before.group_pubkey ≡ some pk)

in_session-ok {ℓ} :
    {R : Type ℓ} (r : Result ReshareError R)
    (k : R → AppState → Result ReshareError (Unit {0}) × AppState) (s s' : AppState)
    → in_session r k s ≡ (ok tt, s')
    → (x : R) × (r ≡ ok x) × (k x s ≡ (ok tt, s'))
in_session-ok (ok x) k s s' h = (x, refl, h)
in_session-ok (err e) k s s' h = ground arith

in_session-err {ℓ} :
    {R : Type ℓ} (r : Result ReshareError R)
    (k : R → AppState → Result ReshareError (Unit {0}) × AppState) (s s' : AppState)
    (e : ReshareError)
    → in_session r k s ≡ (err e, s')
    → (s' ≡ s) ⊎ ((x : R) × (k x s ≡ (err e, s')))
in_session-err (ok x) k s s' e h = inr (x, h)
in_session-err (err f) k s s' e h = inl (ground arith)

prepare_dealer-ok :
    (node_list : List ℕ) (recovering_id : ℕ) (dealer_ids : List ℕ) (new_epoch : ℕ) (s : AppState)
    (t : ℕ × List SessionPeer)
    → prepare_dealer node_list recovering_id dealer_ids new_epoch s ≡ ok t
    → (pos : ℕ) × (position s.eth_address 0 node_list ≡ some pos)
      × (mem (pos + 1) dealer_ids ≡ true)
      × (epoch_of s.shard < new_epoch)
      × (is_some s.shard ≡ true)
      × (t.0 ≡ pos + 1)
unfolding prepare_dealer
prepare_dealer-ok node_list recovering_id dealer_ids new_epoch s t h =
    elim (Option-cases (position s.eth_address 0 node_list)) [
      | inl off ↦ ground arith
      | inr (pos, at) ↦ elim (Bool-cases (mem (pos + 1) dealer_ids)) [
        | inr other ↦ ground arith
        | inl dealer ↦ elim (Bool-cases (leb new_epoch (epoch_of s.shard))) [
          | inl behind ↦ ground arith
          | inr ahead ↦ elim (Bool-cases (is_some s.shard)) [
            | inr bare ↦ ground arith
            | inl held ↦ (pos, at, dealer, ground arith, held, own pos at dealer ahead held)
          ]
        ]
      ]
    ]
  where
    own :
        (pos : ℕ)
        → position s.eth_address 0 node_list ≡ some pos
        → mem (pos + 1) dealer_ids ≡ true
        → leb new_epoch (epoch_of s.shard) ≡ false
        → is_some s.shard ≡ true
        → t.0 ≡ pos + 1
    own pos at dealer ahead held =
        let ids = dealer_ids ++ (if recovering_id == 0 then [] else recovering_id ∷ []) in
        elim (Result-cases (resolve_peers s.peer_table node_list (pos + 1) ids)) [
          | inr (e, unknown) ↦ ground arith
          | inl (peers, resolved) ↦
              elim (Result-cases (parameters s.config.threshold s.config.total_nodes)) [
                | inr (e, zero_parameter) ↦ ground arith
                | inl (u, positive) ↦ ground arith
              ]
        ]

-- An epoch that is ahead of some other has not wrapped.
unwrapped : (n e : ℕ) {k : ℕ} → e ≡ next_epoch n → k < e → next_epoch n ≡ n + 1
unwrapped n e h ahead = elim (Bool-cases (n + 1 == 2 ^ 64)) [
  | inl last ↦ absurd (ground arith)
  | inr more ↦ rw more refl
]

none_filtered :
    (n : ℕ) (ps : List SessionPeer)
    → is_empty (filter (λ p. not (p.epoch == n)) ps) ≡ true
    → All (λ p. p.epoch ≡ n) ps
none_filtered n [] h = tt
none_filtered n (p ∷ ps) h = ground (arith, none_filtered n ps)

prepare_refresh-ok :
    (node_list : List ℕ) (now : ℕ) (s : AppState) (t : List ℕ × ℕ)
    → prepare_refresh node_list now s ≡ ok t
    → (m : Membership) × (assemble_participants s now node_list ≡ ok (some m))
      × (m.all_discovered ≡ true)
      × All (λ p. p.epoch ≡ epoch_of s.shard) m.peers
      × (t.1 ≡ next_epoch (known_epoch s))
unfolding prepare_refresh
prepare_refresh-ok node_list now s t h = elim (Bool-cases (is_some s.shard)) [
  | inr bare ↦ ground arith
  | inl held ↦ elim (Result-cases (assemble_participants s now node_list)) [
    | inr (e, failed) ↦ ground arith
    | inl (o, assembled) ↦ elim (Option-cases o) [
      | inl waiting ↦ ground arith
      | inr (m, is_m) ↦ elim (Bool-cases m.all_discovered) [
        | inr missing ↦ ground arith
        | inl all_there ↦
            elim (Bool-cases (is_empty (filter (λ p. not (p.epoch == epoch_of s.shard)) m.peers))) [
              | inr mixed ↦ ground arith
              | inl single ↦ (
                m,
                assembled ∙ ap (λ o. ok o) is_m,
                all_there,
                none_filtered (epoch_of s.shard) m.peers single,
                ground arith,
              )
            ]
      ]
    ]
  ]
]

module _ (seal : ShardState → Bytes → Option Bytes) where
  commit-ok :
      (own_id epoch : ℕ) (keys : Option (Bytes × Bytes)) (s s' : AppState)
      → commit seal own_id epoch keys s ≡ (ok tt, s')
      → IsStored own_id epoch keys s s'
  unfolding commit
  commit-ok own_id epoch none s s' h = ground arith
  commit-ok own_id epoch (some (share, pk)) s s' h =
      elim (Bool-cases (keeps_master s.group_pubkey pk)) [
        | inl kept ↦
            let e : store_share seal (new_shard own_id share epoch) pk s ≡ s' = ground arith in
            (
              share,
              pk,
              refl,
              sym (ap (λ t. t.shard) e),
              sym (ap (λ t. t.group_pubkey) e),
              same s.group_pubkey pk kept,
            )
        | inr changed ↦ ground arith
      ]
    where
      same :
          (o : Option Bytes) (pk : Bytes)
          → keeps_master o pk ≡ true
          → or_before (some pk) o ≡ some pk
      same none pk h = refl
      same (some known) pk h = ap (λ k. some k) ((beq_bytes_iff known pk).0 h)

  commit-err :
      (own_id epoch : ℕ) (keys : Option (Bytes × Bytes)) (s s' : AppState) (e : ReshareError)
      → commit seal own_id epoch keys s ≡ (err e, s')
      → s' ≡ s
  unfolding commit
  commit-err own_id epoch none s s' e h = ground arith
  commit-err own_id epoch (some (share, pk)) s s' e h =
      elim (Bool-cases (keeps_master s.group_pubkey pk)) [
        | inl kept ↦ ground arith
        | inr changed ↦ ground arith
      ]

  -- A recovery that succeeds had enough dealers, takes the epoch after the highest that the node knew
  -- of when it began, which is above them all unless that was the last u64, where it is 0, and keeps a group public key that is known when the session ends.
  pub run_reshare_recovery-preserves :
      (m : Membership) (session : Session) (s s' : AppState)
      → run_reshare_recovery seal m session s ≡ (ok tt, s')
      → (max m.threshold (m.total / 2) ≤ length (leading_dealers m))
        × IsAhead s s'
        × IsStored m.own_id (next_epoch (known_epoch s)) session.keys (session.meanwhile s) s'
  unfolding run_reshare_recovery
  run_reshare_recovery-preserves m session s s' h =
      let new_epoch = next_epoch (known_epoch s) in
      let (u, admitted, committed) =
        in_session-ok (recovery_gate m >> parameters m.threshold m.total)
          (λ _ s. commit seal m.own_id new_epoch session.keys (session.meanwhile s)) s s' h in
      let stored = commit-ok m.own_id new_epoch session.keys (session.meanwhile s) s' committed in
      let (v, gate, rest) =
        >>=-eq-ok (recovery_gate m) (λ _. parameters m.threshold m.total) admitted in
      (
        (recovery_gate_iff m).0 gate,
        above s s' m.own_id session.keys (session.meanwhile s) stored,
        stored,
      )
    where
      above :
          (s s' : AppState) (own_id : ℕ) (keys : Option (Bytes × Bytes)) (before : AppState)
          → IsStored own_id (next_epoch (known_epoch s)) keys before s'
          → IsAhead s s'
      above s s' own_id keys before (share, pk, e, stored, k, g) =
          let at = ap epoch_of stored in
          elim (Bool-cases (known_epoch s + 1 == 2 ^ 64)) [
            | inl last ↦
                inr ((==_iff (known_epoch s + 1) (2 ^ 64)).0 last, ground (arith, at, last))
            | inr more ↦ inl (ground (arith, at, more))
          ]

  -- A recovery that fails stores nothing: the state is as it was, or as the other tasks left it.
  run_reshare_recovery-err :
      (m : Membership) (session : Session) (s s' : AppState) (e : ReshareError)
      → run_reshare_recovery seal m session s ≡ (err e, s')
      → (s' ≡ s) ⊎ (s' ≡ session.meanwhile s)
  unfolding run_reshare_recovery
  run_reshare_recovery-err m session s s' e h =
      let new_epoch = next_epoch (known_epoch s) in
      let k = λ (u : Unit) (s : AppState).
        commit seal m.own_id new_epoch session.keys (session.meanwhile s) in
      elim (in_session-err (recovery_gate m >> parameters m.threshold m.total) k s s' e h) [
        | inl same ↦ inl same
        | inr (u, committed) ↦
            inr (commit-err m.own_id new_epoch session.keys (session.meanwhile s) s' e committed)
      ]

  -- A dealer that succeeds is a dealer of the request and moves to its epoch, above the one it was at
  -- when the session began; it keeps a group public key that is known when the session ends. What
  -- other tasks stored meanwhile does not matter: their share, also one of a later epoch, is replaced.
  pub run_reshare_dealer-preserves :
      (node_list : List ℕ) (recovering_id : ℕ) (dealer_ids : List ℕ) (new_epoch : ℕ)
      (session : Session) (s s' : AppState)
      → run_reshare_dealer seal node_list recovering_id dealer_ids new_epoch session s ≡ (ok tt, s')
      → (pos : ℕ) × (position s.eth_address 0 node_list ≡ some pos)
        × (mem (pos + 1) dealer_ids ≡ true)
        × (epoch_of s.shard < new_epoch)
        × (is_some s.shard ≡ true)
        × IsStored (pos + 1) new_epoch session.keys (session.meanwhile s) s'
  unfolding run_reshare_dealer
  run_reshare_dealer-preserves node_list recovering_id dealer_ids new_epoch session s s' h =
      let (t, prepared, committed) =
        in_session-ok (prepare_dealer node_list recovering_id dealer_ids new_epoch s)
          (λ t s. commit seal t.0 new_epoch session.keys (session.meanwhile s)) s s' h in
      let (pos, at, dealer, ahead, held, own) =
        prepare_dealer-ok node_list recovering_id dealer_ids new_epoch s t prepared in
      let stored = commit-ok t.0 new_epoch session.keys (session.meanwhile s) s' committed in
      (
        pos,
        at,
        dealer,
        ahead,
        held,
        subst (λ i. IsStored i new_epoch session.keys (session.meanwhile s) s') own stored,
      )

  -- A dealer that fails stores nothing.
  pub run_reshare_dealer-err :
      (node_list : List ℕ) (recovering_id : ℕ) (dealer_ids : List ℕ) (new_epoch : ℕ)
      (session : Session) (s s' : AppState) (e : ReshareError)
      → run_reshare_dealer seal node_list recovering_id dealer_ids new_epoch session s ≡ (err e, s')
      → (s' ≡ s) ⊎ (s' ≡ session.meanwhile s)
  unfolding run_reshare_dealer
  run_reshare_dealer-err node_list recovering_id dealer_ids new_epoch session s s' e h =
      let k = λ (t : ℕ × List SessionPeer) (s : AppState).
        commit seal t.0 new_epoch session.keys (session.meanwhile s) in
      elim (in_session-err (prepare_dealer node_list recovering_id dealer_ids new_epoch s) k s s' e
        h) [
          | inl same ↦ inl same
          | inr (t, committed) ↦
              inr (commit-err t.0 new_epoch session.keys (session.meanwhile s) s' e committed)
        ]

  -- A refresh that succeeds began with a committee of which no member was missing and all live peers
  -- were on this node's epoch, and it leaves this node one epoch above every epoch it knew of.
  pub trigger_refresh-whole :
      (node_list : List ℕ) (now : ℕ) (between : AppState → AppState) (node_list' : List ℕ)
      (session : Session) (s s' : AppState)
      → trigger_refresh seal node_list now between node_list' session s ≡ (ok tt, s')
      → (m : Membership) × (assemble_participants s now node_list ≡ ok (some m))
        × (m.all_discovered ≡ true)
        × All (λ p. p.epoch ≡ epoch_of s.shard) m.peers
        × (epoch_of s'.shard ≡ known_epoch s + 1)
  unfolding trigger_refresh
  trigger_refresh-whole node_list now between node_list' session s s' h =
      let (t, prepared, dealt) =
        in_session-ok (prepare_refresh node_list now s)
          (λ t s. run_reshare_dealer seal node_list' 0 t.0 t.1 session (between s)) s s' h in
      let (m, assembled, healthy, single, epoch) = prepare_refresh-ok node_list now s t prepared in
      let (pos, at, dealer, ahead, held, kept) =
        run_reshare_dealer-preserves node_list' 0 t.0 t.1 session (between s) s' dealt in
      let (share, pk, e, stored, k, g) = kept in
      (
        m,
        assembled,
        healthy,
        single,
        ap epoch_of stored ∙ epoch ∙ unwrapped (known_epoch s) _ epoch ahead,
      )
