-- ===== src/Dkg/Parts.antt =====
-- The sessions that src/init.rs runs: the participant that each part makes of itself, and what it
-- stores of the session's output. The participants are the DKG library's, a parameter.
use g_kms.Prelude.{ℕ, List, map, ◌++◌, Option, none, some, Bytes, codes, Result, ok, err}
use g_kms.State.{AppState, ShardState}
use g_kms.Membership.{Membership, SessionPeer, leading_dealers, position}
use g_kms.Reshare.{ReshareError, Session, prepare_dealer}
use g_kms.Crypto.Bls.{BlsLibrary, BlsError, stored_bytes, own_scalar}
use g_kms.Dkg.{DkgError, Protocol, Rounds, run_session}

-- `SecretParticipant::new` and `with_secret`, `RefreshParticipant::new`, for an id, the threshold and
-- the size, and the two parts of an output.
pub record Participants (l : BlsLibrary) (p : Protocol) : Type 0 where
  pub new_secret : ℕ → ℕ → ℕ → Option p.Participant
  pub with_secret : ℕ → ℕ → ℕ → l.Scalar → List l.Scalar → ℕ → Option p.Participant
  pub new_refresh : ℕ → ℕ → ℕ → Option p.Participant
  pub secret_share : p.Output → l.Scalar
  pub public_bytes : p.Output → Bytes

abbrev pub failed_session : Session
failed_session = record { meanwhile = λ s. s; keys = none }

module _ (l : BlsLibrary) (p : Protocol) (x : Participants l p) where
  -- The bytes of the share, bridged to blsful, and of the group public key.
  abbrev pub keys_of : ℕ → Result DkgError p.Output → Option (Bytes × Bytes)
  keys_of own_id (err e) = none
  keys_of own_id (ok output) =
      some (stored_bytes l own_id (x.secret_share output), x.public_bytes output)

  abbrev pub session_from :
      Bytes → ℕ → List SessionPeer → Rounds → Option p.Participant → AppState → Session
  session_from session_id own_id peers env none s = failed_session
  session_from session_id own_id peers env (some participant) s = record {
    meanwhile = λ t. (run_session p session_id participant peers env t).2;
    keys = keys_of own_id (run_session p session_id participant peers env s).0;
  }

  abbrev pub genesis_id : AppState → Bytes
  genesis_id s = codes "genesis:" ++ s.config.app_id

  -- The session of `run_genesis`.
  abbrev pub genesis_session : ℕ → ℕ → ℕ → List SessionPeer → Rounds → AppState → Session
  genesis_session own_id threshold total peers env s =
      session_from (genesis_id s) own_id peers env (x.new_secret own_id threshold total) s

  -- The session of `run_reshare_recovery`, with the dealers.
  abbrev pub recovery_session : Bytes → Membership → Rounds → AppState → Session
  recovery_session session_id m env s =
      session_from session_id m.own_id (leading_dealers m) env
        (x.new_refresh m.own_id m.threshold m.total) s

  -- The session of `run_reshare_dealer`: the scalar of its own share is fed in, at its place among the
  -- dealers.
  abbrev pub with_index :
      Bytes → ℕ → List SessionPeer → List ℕ → Rounds → AppState → l.Scalar → Option ℕ → Session
  with_index session_id own_id peers dealer_ids env s v none = failed_session
  with_index session_id own_id peers dealer_ids env s v (some index) =
      session_from session_id own_id peers env
        (x.with_secret own_id s.config.threshold s.config.total_nodes v (map l.scalar dealer_ids)
          index)
        s

  abbrev pub with_scalar :
      Bytes → ℕ → List SessionPeer → List ℕ → Rounds → AppState → Result BlsError l.Scalar → Session
  with_scalar session_id own_id peers dealer_ids env s (err e) = failed_session
  with_scalar session_id own_id peers dealer_ids env s (ok v) =
      with_index session_id own_id peers dealer_ids env s v (position own_id 0 dealer_ids)

  abbrev pub with_share :
      Bytes → ℕ → List SessionPeer → List ℕ → Rounds → AppState → Option ShardState → Session
  with_share session_id own_id peers dealer_ids env s none = failed_session
  with_share session_id own_id peers dealer_ids env s (some shard) =
      with_scalar session_id own_id peers dealer_ids env s (own_scalar l shard)

  abbrev pub for_dealer :
      Bytes → List ℕ → Rounds → AppState → Result ReshareError (ℕ × List SessionPeer) → Session
  for_dealer session_id dealer_ids env s (err e) = failed_session
  for_dealer session_id dealer_ids env s (ok (own_id, peers)) =
      with_share session_id own_id peers dealer_ids env s s.shard

  abbrev pub dealer_session : Bytes → List ℕ → ℕ → List ℕ → ℕ → Rounds → AppState → Session
  dealer_session session_id node_list recovering_id dealer_ids new_epoch env s =
      for_dealer session_id dealer_ids env s
        (prepare_dealer node_list recovering_id dealer_ids new_epoch s)
