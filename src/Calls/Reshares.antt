-- ===== src/Calls/Reshares.antt =====
-- A reshare that a member asks of another: the request, the dealer's part in the background and the
-- counters (src/grpc.rs, `send_start_reshare` and `start_reshare`; src/init.rs, `run_reshare_dealer`).
use g_kms.Prelude.{
  ℕ, ◌+◌, ◌<◌, ◌≡◌, ◌⊎◌, refl, true, is_some, mem, List, Option, some, Bytes, Result, ok, err,
  codes, [], ◌∷◌, ◌++◌,
}
use g_kms.State.{AppState, ShardState, epoch_of}
use g_kms.Membership.{position}
use g_kms.Auth.{Authority}
use g_kms.Auth.Metadata.{Formats}
use g_kms.Metrics.Registry.{Metrics}
use g_kms.Metrics.Counters.{inc, record_outcome}
use g_kms.Reshare.{Session, ReshareError, run_reshare_dealer}
use g_kms.Reshare.Commit.{IsStored, run_reshare_dealer-preserves, run_reshare_dealer-err}
use g_kms.Service.{ReshareRequest, start_reshare}
use g_kms.Crypto.{Secp256k1, with_recovery, with_signing, ecies}
use g_kms.Crypto.Signing.{IsEcdsa}
use g_kms.Calls.{send_start_reshare, served_start_reshare, deal_in_background}
use g_kms.Calls.Accepted.{IsAccepted, caller-IsAccepted}

-- What a dealer's part leaves: a success is counted and has moved the node, at its place among the
-- dealers, to the epoch of the request, above its own, with the master that was known; a failure is
-- counted and has stored nothing.
abbrev pub IsDealt :
    List ℕ
    → Session
    → ReshareRequest
    → Metrics
    → AppState
    → Result ReshareError (Unit {0}) × AppState × Metrics
    → Type 0
IsDealt node_list session req m s (ok u, s', m') =
    (m' ≡ record m { dealer_ok = inc m.dealer_ok })
    × (epoch_of s.shard < req.epoch)
    × (pos : ℕ) × (position s.eth_address 0 node_list ≡ some pos)
    × (mem (pos + 1) req.dealer_ids ≡ true)
    × IsStored (pos + 1) req.epoch session.keys (session.meanwhile s) s'
IsDealt node_list session req m s (err e, s', m') =
    (m' ≡ record m { dealer_fail = inc m.dealer_fail }) × ((s' ≡ s) ⊎ (s' ≡ session.meanwhile s))

background-IsDealt :
    (seal : ShardState → Bytes → Option Bytes) (node_list : List ℕ) (session : Session)
    (req : ReshareRequest) (m : Metrics) (s : AppState)
    → IsDealt node_list session req m s (deal_in_background seal node_list session req m s)
unfolding deal_in_background
background-IsDealt seal node_list session req m s =
    go (run_reshare_dealer seal node_list req.recovering_id req.dealer_ids req.epoch session s) refl
  where
    go :
        (x : Result ReshareError (Unit {0}) × AppState)
        → run_reshare_dealer seal node_list req.recovering_id req.dealer_ids req.epoch session s ≡ x
        → IsDealt node_list session req m s (
          x.0,
          x.1,
          record m {
            dealer_ok = (record_outcome x.0 (m.dealer_ok, m.dealer_fail)).0;
            dealer_fail = (record_outcome x.0 (m.dealer_ok, m.dealer_fail)).1;
          },
        )
    go (ok u, s') h =
        let (pos, at, dealer, ahead, held, stored) =
          run_reshare_dealer-preserves seal node_list req.recovering_id req.dealer_ids req.epoch
            session s s' h in
        (refl, ahead, pos, at, dealer, stored)
    go (err e, s') h = (
      refl,
      run_reshare_dealer-err seal node_list req.recovering_id req.dealer_ids req.epoch session s s'
          e h,
    )

-- A member that asks another, which holds a share, for a reshare has its request acknowledged, which of
-- itself changes no state and spawns a dealer's part for the request just as it was sent, once; and what
-- that part then does in the background either
-- succeeds and moves its share, or fails and stores nothing, and is counted once.
pub send_start_reshare-IsDealt :
    (k : Secp256k1) (f : Formats) (a : Authority) (private_key pubkey sig : Bytes)
    (timestamp now : ℕ) (server_key : Bytes) (seal : ShardState → Bytes → Option Bytes)
    (node_list : List ℕ) (session : Session) (req : ReshareRequest) (m : Metrics) (s : AppState)
    (spawned : List ReshareRequest)
    → IsEcdsa k
    → IsAccepted k f a private_key pubkey (codes "StartReshare") sig timestamp now s
    → is_some s.shard ≡ true
    → (send_start_reshare
          (with_signing k f)
          (with_recovery k a)
          (some
            (served_start_reshare (with_signing k f) (ecies k) server_key (with_recovery k a) now))
          req.session_id
          req.recovering_id
          req.dealer_ids
          req.epoch
          sig
          timestamp
          (s, spawned)
        ≡ (ok tt, (s, spawned ++ req ∷ [])))
      × IsDealt node_list session req m s (deal_in_background seal node_list session req m s)
unfolding send_start_reshare start_reshare
send_start_reshare-IsDealt k f a private_key pubkey sig timestamp now server_key seal node_list
      session req m s spawned ecdsa accepted held =
    (
      rw
          (caller-IsAccepted k f a private_key pubkey (codes "StartReshare") sig timestamp now
            server_key s ecdsa accepted)
          (rw held refl),
      background-IsDealt seal node_list session req m s,
    )
