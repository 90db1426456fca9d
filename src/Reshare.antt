-- ===== src/Reshare.antt =====
-- src/init.rs: a genesis, the two sides of a reshare and the manual refresh, with the share that each
-- stores. The sessions run in a crypto library over the network: their outcome is an argument.
pub mod Quorum
pub mod Commit
mod Tests
use g_kms.Prelude.{
  ℕ, ◌+◌, ◌^◌, ◌/◌, ◌==◌, ltb, leb, Bool, true, false, not, ◌&&◌, ◌||◌, if◌then◌else◌, is_empty,
  is_some, List, [], ◌∷◌, ◌++◌, length, map, filter, Option, none, some, Result, ok, err, ◌>>=◌,
  ◌>>◌, ensure, ok_or, map_err, mem, sort, insert_sorted, Bytes, beq_bytes,
}
use g_kms.State.{AppState, ShardState, epoch_of, known_epoch}
use g_kms.Membership.{
  Membership, SessionPeer, SessionError, leading_dealers, assemble_participants, resolve_peers,
  position,
}

abbrev pub genesis_epoch : ℕ
genesis_epoch = 1

-- `known_epoch + 1`, a u64, which wraps.
abbrev pub next_epoch : ℕ → ℕ
next_epoch n = if n + 1 == 2 ^ 64 then 0 else n + 1

-- `majority`.
abbrev pub majority : ℕ → ℕ
majority total = total / 2 + 1

pub data ReshareError : Type 0 where
  too_few_dealers : ReshareError
  no_majority : ReshareError
  bad_parameters : ReshareError
  session_failed : ReshareError
  master_changed : ReshareError
  no_share : ReshareError
  epoch_not_ahead : ReshareError
  not_a_dealer : ReshareError
  not_at_size : ReshareError
  not_all_healthy : ReshareError
  mixed_epochs : ReshareError
  participants : SessionError → ReshareError

-- A session that this node takes part in: the share and the group public key that come out of it, or
-- its failure, and what the node's other tasks did to the state meanwhile.
pub record Session : Type 0 where
  pub meanwhile : AppState → AppState
  pub keys : Option (Bytes × Bytes)

abbrev pub or_before : Option Bytes → Option Bytes → Option Bytes
or_before before none = before
or_before before (some b) = some b

abbrev pub new_shard : ℕ → Bytes → ℕ → ShardState
new_shard own_id share epoch = record { shard_index = own_id; shard_bytes = share; epoch = epoch }

-- The master must be preserved: a known group public key is not replaced by another.
abbrev pub keeps_master : Option Bytes → Bytes → Bool
keeps_master none pk = true
keeps_master (some known) pk = beq_bytes known pk

-- `Parameters::new`: neither the threshold nor the size is 0.
abbrev pub parameters : ℕ → ℕ → Result ReshareError (Unit {0})
parameters threshold total =
    ensure (not (threshold == 0) && not (total == 0)) ReshareError.bad_parameters

abbrev pub in_session {ℓ} :
    {R : Type ℓ}
    → Result ReshareError R
    → (R → AppState → Result ReshareError (Unit {0}) × AppState)
    → AppState
    → Result ReshareError (Unit {0}) × AppState
in_session (err e) k s = (err e, s)
in_session (ok r) k s = k r s

-- The two gates of `run_reshare_recovery`.
unfoldable pub recovery_gate : Membership → Result ReshareError (Unit {0})
recovery_gate m =
    let dealers = length (leading_dealers m) in
    ensure (not (ltb dealers m.threshold)) ReshareError.too_few_dealers
    >> ensure (not (ltb (dealers + 1) (majority m.total))) ReshareError.no_majority

-- What `run_reshare_dealer` checks before the session: its own id in the node list, which must be
-- among the dealers, an epoch ahead of its own, a share, and participants that are known.
unfoldable pub prepare_dealer :
    List ℕ → ℕ → List ℕ → ℕ → AppState → Result ReshareError (ℕ × List SessionPeer)
prepare_dealer node_list recovering_id dealer_ids new_epoch s =
    ok_or (position s.eth_address 0 node_list)
      (ReshareError.participants SessionError.not_in_node_list)
    >>= λ pos.
        let own_id = pos + 1 in
        ensure (mem own_id dealer_ids) ReshareError.not_a_dealer
        >> ensure (not (leb new_epoch (epoch_of s.shard))) ReshareError.epoch_not_ahead
        >> ensure (is_some s.shard) ReshareError.no_share
        >> map_err (λ e. ReshareError.participants e)
            (resolve_peers s.peer_table node_list own_id
              (dealer_ids ++ (if recovering_id == 0 then [] else recovering_id ∷ [])))
        >>= λ peers. parameters s.config.threshold s.config.total_nodes >> ok (own_id, peers)

-- What `trigger_refresh` checks before it tells the others: this node has a share, all members are
-- healthy, and all are on its own epoch. Its session has the whole committee as dealers.
unfoldable pub prepare_refresh : List ℕ → ℕ → AppState → Result ReshareError (List ℕ × ℕ)
prepare_refresh node_list now s =
    ensure (is_some s.shard) ReshareError.no_share
    >> map_err (λ e. ReshareError.participants e) (assemble_participants s now node_list)
    >>= λ o. ok_or o ReshareError.not_at_size >>= λ m.
        ensure m.all_discovered ReshareError.not_all_healthy
        >> ensure (is_empty (filter (λ p. not (p.epoch == epoch_of s.shard)) m.peers))
            ReshareError.mixed_epochs
        >> ok (sort (map (λ p. p.id) m.peers ++ m.own_id ∷ []), next_epoch (known_epoch s))

module _ (seal : ShardState → Bytes → Option Bytes) where
  -- `store_share`: the share is sealed first, and a failure of that keeps the blob that was there.
  abbrev pub store_share : ShardState → Bytes → AppState → AppState
  store_share shard group_pubkey s = record s {
    sealed_share = or_before s.sealed_share (seal shard group_pubkey);
    group_pubkey = some group_pubkey;
    shard = some shard;
  }

  -- The end of a reshare, on either side.
  unfoldable pub commit :
      ℕ → ℕ → Option (Bytes × Bytes) → AppState → Result ReshareError (Unit {0}) × AppState
  commit own_id epoch none s = (err ReshareError.session_failed, s)
  commit own_id epoch (some (share, pk)) s =
      if keeps_master s.group_pubkey pk
      then (ok tt, store_share (new_shard own_id share epoch) pk s)
      else (err ReshareError.master_changed, s)

  -- `run_genesis`, which has no earlier key to compare with.
  abbrev genesis_commit :
      ℕ → Option (Bytes × Bytes) → AppState → Result ReshareError (Unit {0}) × AppState
  genesis_commit own_id none s = (err ReshareError.session_failed, s)
  genesis_commit own_id (some (share, pk)) s =
      (ok tt, store_share (new_shard own_id share genesis_epoch) pk s)

  unfoldable pub run_genesis :
      ℕ → ℕ → ℕ → Session → AppState → Result ReshareError (Unit {0}) × AppState
  run_genesis own_id threshold total session s =
      in_session (parameters threshold total)
        (λ _ s. genesis_commit own_id session.keys (session.meanwhile s)) s

  -- `run_reshare_recovery`. The epoch is fixed before the dealers are triggered; a dealer that cannot
  -- be triggered is only logged.
  unfoldable pub run_reshare_recovery :
      Membership → Session → AppState → Result ReshareError (Unit {0}) × AppState
  unfolding recovery_gate commit
  run_reshare_recovery m session s =
      let new_epoch = next_epoch (known_epoch s) in
      in_session (recovery_gate m >> parameters m.threshold m.total)
        (λ _ s. commit m.own_id new_epoch session.keys (session.meanwhile s)) s

  -- `run_reshare_dealer`, given the node list.
  unfoldable pub run_reshare_dealer :
      List ℕ → ℕ → List ℕ → ℕ → Session → AppState → Result ReshareError (Unit {0}) × AppState
  unfolding prepare_dealer commit
  run_reshare_dealer node_list recovering_id dealer_ids new_epoch session s =
      in_session (prepare_dealer node_list recovering_id dealer_ids new_epoch s)
        (λ (own_id, peers) s. commit own_id new_epoch session.keys (session.meanwhile s)) s

  -- `trigger_refresh`: the node list is read again, and other tasks run, before this node's own part.
  unfoldable pub trigger_refresh :
      List ℕ
      → ℕ
      → (AppState → AppState)
      → List ℕ
      → Session
      → AppState
      → Result ReshareError (Unit {0}) × AppState
  unfolding prepare_refresh run_reshare_dealer
  trigger_refresh node_list now between node_list' session s =
      in_session (prepare_refresh node_list now s)
        (λ (dealer_ids, new_epoch) s.
          run_reshare_dealer node_list' 0 dealer_ids new_epoch session (between s))
        s
