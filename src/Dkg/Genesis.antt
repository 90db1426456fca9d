-- ===== src/Dkg/Genesis.antt =====
-- A genesis and a recovery with the session that they run (src/init.rs, `run_genesis` and
-- `run_reshare_recovery`; src/dkg.rs).
use g_kms.Prelude.{
  ℕ, ◌≤◌, ◌/◌, max, length, ◌≡◌, refl, sym, ap, ◌∙◌, List, Option, Option-cases, none, some, Bytes,
  Result-cases, inl, inr, ok, arith,
}
use g_kms.State.{AppState, ShardState, known_epoch}
use g_kms.Membership.{Membership, SessionPeer, leading_dealers}
use g_kms.Reshare.{
  Session, next_epoch, genesis_epoch, new_shard, parameters, run_genesis, run_reshare_recovery,
  store_share,
}
use g_kms.Reshare.Commit.{run_reshare_recovery-preserves}
use g_kms.Crypto.Bls.{BlsLibrary, stored_bytes}
use g_kms.Dkg.{Protocol, Sent, Rounds, session_of, run_session}
use g_kms.Dkg.Parts.{
  Participants, keys_of, session_from, genesis_id, genesis_session, recovery_session,
}
use g_kms.Dkg.Session.{IsRun, run_session-IsRun}

-- What a genesis that succeeds stores on what the other tasks have left.
run_genesis-ok :
    (seal : ShardState → Bytes → Option Bytes) (own_id threshold total : ℕ) (session : Session)
    (s s' : AppState)
    → run_genesis seal own_id threshold total session s ≡ (ok tt, s')
    → (share : Bytes) × (pk : Bytes) × (session.keys ≡ some (share, pk))
      × (store_share seal (new_shard own_id share genesis_epoch) pk (session.meanwhile s) ≡ s')
unfolding run_genesis
run_genesis-ok seal own_id threshold total session s s' h =
    elim (Result-cases (parameters threshold total)) [
      | inr (e, refused) ↦ ground arith
      | inl (u, good) ↦ elim (Option-cases session.keys) [
        | inl failed ↦ ground arith
        | inr ((share, pk), out) ↦ (share, pk, out, ground arith)
      ]
    ]

module _ (l : BlsLibrary) (p : Protocol) (x : Participants l p) where
  -- A session that was run in full, from a participant of this id: its output as it is stored, and no
  -- buffers left behind.
  abbrev pub HasRun :
      Bytes
      → ℕ
      → List SessionPeer
      → Rounds
      → Option p.Participant
      → AppState
      → AppState
      → Bytes
      → Bytes
      → Type 0
  HasRun session_id own_id peers env made s s' share pk =
      (participant : p.Participant) × (output : p.Output) × (sent : List Sent) × (made
        ≡ some participant)
      × (p.get_id participant ≡ own_id)
      × IsRun p session_id participant peers env s s' output sent
      × (share ≡ stored_bytes l own_id (x.secret_share output))
      × (pk ≡ x.public_bytes output)
      × (session_of session_id s' ≡ none)

  session_from-HasRun :
      (session_id : Bytes) (own_id : ℕ) (peers : List SessionPeer) (env : Rounds)
      (made : Option p.Participant) (s : AppState) (share pk : Bytes)
      → ((q : p.Participant) → made ≡ some q → p.get_id q ≡ own_id)
      → (session_from l p x session_id own_id peers env made s).keys ≡ some (share, pk)
      → HasRun session_id own_id peers env made s
          ((session_from l p x session_id own_id peers env made s).meanwhile s)
          share
          pk
  session_from-HasRun session_id own_id peers env none s share pk ids h = absurd (ground arith)
  session_from-HasRun session_id own_id peers env (some q) s share pk ids h =
      let r = run_session p session_id q peers env s in
      elim (Result-cases r.0) [
        | inr (e, failed) ↦
            let nothing : none ≡ some (share, pk) = sym (ap (keys_of l p x own_id) failed) ∙ h in
            absurd (ground arith)
        | inl (output, done) ↦
            let whole : r ≡ (ok output, r.1, r.2) = ap (λ a. (a, r.1, r.2)) done in
            let (run, closed) = run_session-IsRun p session_id q peers env s r.2 output r.1 whole in
            let keys : some (stored_bytes l own_id (x.secret_share output), x.public_bytes output)
                ≡ some (share, pk) =
              sym (ap (keys_of l p x own_id) done) ∙ h in
            (q, output, r.1, refl, ids q refl, run, ground arith, ground arith, closed)
      ]

  -- A genesis that succeeds has run the whole protocol in the session of its app id, as the participant
  -- that the library makes for its own id, threshold and size, and stores that participant's output: the
  -- secret share, bridged and written as a share of this id at the first epoch, and the group public
  -- key. Nothing of the session stays buffered. A participant has the id it is made for.
  pub run_genesis-HasRun :
      (seal : ShardState → Bytes → Option Bytes) (own_id threshold total : ℕ)
      (peers : List SessionPeer) (env : Rounds) (s s' : AppState)
      → ((q : p.Participant) → x.new_secret own_id threshold total ≡ some q → p.get_id q ≡ own_id)
      → run_genesis seal own_id threshold total
          (genesis_session l p x own_id threshold total peers env s)
          s
        ≡ (ok tt, s')
      → (share : Bytes) × (pk : Bytes) × (left : AppState) × HasRun
          (genesis_id l p x s)
          own_id
          peers
          env
          (x.new_secret own_id threshold total)
          s
          left
          share
          pk
        × (s' ≡ store_share seal (new_shard own_id share genesis_epoch) pk left)
  run_genesis-HasRun seal own_id threshold total peers env s s' ids h =
      let session = genesis_session l p x own_id threshold total peers env s in
      let (share, pk, out, made) = run_genesis-ok seal own_id threshold total session s s' h in
      (
        share,
        pk,
        session.meanwhile s,
        session_from-HasRun (genesis_id l p x s) own_id peers env
            (x.new_secret own_id threshold total) s share pk ids out,
        sym made,
      )

  -- A recovery that succeeds has run the protocol with its dealers, of which there are at least the
  -- threshold and half of the committee, and stores the output's share at the epoch after those it knew
  -- of.
  run_reshare_recovery-HasRun :
      (seal : ShardState → Bytes → Option Bytes) (session_id : Bytes) (m : Membership)
      (env : Rounds) (s s' : AppState)
      → ((q : p.Participant)
          → x.new_refresh m.own_id m.threshold m.total ≡ some q
          → p.get_id q ≡ m.own_id)
      → run_reshare_recovery seal m (recovery_session l p x session_id m env s) s ≡ (ok tt, s')
      → (max m.threshold (m.total / 2) ≤ length (leading_dealers m))
        × (share : Bytes) × (pk : Bytes) × (left : AppState) × HasRun session_id m.own_id
            (leading_dealers m)
            env
            (x.new_refresh m.own_id m.threshold m.total)
            s
            left
            share
            pk
        × (s'.shard ≡ some (new_shard m.own_id share (next_epoch (known_epoch s))))
        × (s'.group_pubkey ≡ some pk)
  run_reshare_recovery-HasRun seal session_id m env s s' ids h =
      let session = recovery_session l p x session_id m env s in
      let (enough, above, (share, pk, out, stored, key, kept)) =
        run_reshare_recovery-preserves seal m session s s' h in
      (
        enough,
        share,
        pk,
        session.meanwhile s,
        session_from-HasRun session_id m.own_id (leading_dealers m) env
            (x.new_refresh m.own_id m.threshold m.total) s share pk ids out,
        stored,
        key,
      )
