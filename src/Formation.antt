-- ===== src/Formation.antt =====
-- src/init.rs: how a node comes to hold a share, and catches up when it has fallen behind. What the
-- network answers, and what other tasks do while it does, are arguments.
pub mod Gates
mod Tests
use g_kms.Prelude.{
  ℕ, ◌+◌, ◌==◌, ltb, leb, not, Bool, true, false, ◌&&◌, ◌||◌, if◌then◌else◌, List, [], ◌∷◌, Option,
  none, some, Result, ok, err, ◌>>=◌, Bytes, is_empty, is_some, unwrap_or,
}
use g_kms.Time.{seconds, elapsed}
use g_kms.State.{AppState, ShardState, epoch_of, known_epoch}
use g_kms.Membership.{Membership, SessionError, assemble_participants}
use g_kms.Reshare.{ReshareError, Session, genesis_epoch, run_genesis, run_reshare_recovery}

-- A call to a seed: no connection, a status, or a response with its shard index, whether its
-- signature is a member's and binds it, and what ECIES makes of its ciphertext. `rejected` is a
-- header that the transport does not take.
pub data Code : Type 0 where
  unavailable : Code
  failed_precondition : Code
  other : Code

pub data Contact : Type 0 where
  no_connection : Contact
  rejected : Contact
  refused_with : Code → Contact
  responded : ℕ → Bool → Option Bytes → Contact

pub data SeedError : Type 0 where
  unreachable : SeedError
  declined : SeedError

-- `map_err(|status| ...)`.
abbrev pub classify : Code → SeedError
classify Code.unavailable = SeedError.unreachable
classify Code.failed_precondition = SeedError.declined
classify Code.other = SeedError.declined

abbrev pub decrypted : ℕ → Option Bytes → Result SeedError ShardState
decrypted index none = err SeedError.declined
decrypted index (some bytes) =
    ok (record { shard_index = index; shard_bytes = bytes; epoch = genesis_epoch })

unfoldable pub request_shard_from_peer : Contact → Result SeedError ShardState
request_shard_from_peer Contact.no_connection = err SeedError.unreachable
request_shard_from_peer Contact.rejected = err SeedError.declined
request_shard_from_peer (Contact.refused_with code) = err (classify code)
request_shard_from_peer (Contact.responded index verified bytes) =
    if verified then decrypted index bytes else err SeedError.declined

pub data JoinResult : Type 0 where
  joined : JoinResult
  no_seed_reachable : JoinResult
  seed_reachable_declined : JoinResult

abbrev pub after_seed :
    Bool
    → (Bool → JoinResult × Option ShardState)
    → Result SeedError ShardState
    → JoinResult × Option ShardState
after_seed any_reachable rest (ok shard) = (JoinResult.joined, some shard)
after_seed any_reachable rest (err SeedError.unreachable) = rest any_reachable
after_seed any_reachable rest (err SeedError.declined) = rest true

-- The loop over the seeds, with the share that one of them gave.
unfoldable pub ask_seeds : (Bytes → Contact) → Bool → List Bytes → JoinResult × Option ShardState
unfolding request_shard_from_peer
ask_seeds contact any_reachable [] =
    if any_reachable
    then (JoinResult.seed_reachable_declined, none)
    else (JoinResult.no_seed_reachable, none)
ask_seeds contact any_reachable (seed ∷ seeds) =
    after_seed any_reachable (λ reachable. ask_seeds contact reachable seeds)
      (request_shard_from_peer (contact seed))

-- `join_cluster`: `none` is a failure to sign. No seeds means an empty cluster.
unfoldable pub join_cluster :
    Bool → (Bytes → Contact) → List Bytes → Option (JoinResult × Option ShardState)
unfolding ask_seeds
join_cluster signed contact seeds =
    if is_empty seeds
    then some (JoinResult.no_seed_reachable, none)
    else (if signed then some (ask_seeds contact false seeds) else none)

-- `SUBSET_SETTLE`.
abbrev pub subset_settle : ℕ
subset_settle = seconds 60

-- One pass of the loop in `form_cluster`: the node list, or none if it cannot be read, the clocks, the
-- seeds' answers, what other tasks do while they are asked, and the session that is run.
pub record Pass : Type 0 where
  pub node_list : Option (List ℕ)
  pub now : ℕ
  pub signed : Bool
  pub contact : Bytes → Contact
  pub while_asking : AppState → AppState
  pub instant : ℕ
  pub session : Session

pub data Decision : Type 0 where
  formed : Decision
  waiting_for_list : Decision
  assembly_failed : Decision
  probe_failed : Decision
  assigned : Decision
  waiting_for_all : Decision
  genesis : Result ReshareError (Unit {0}) → Decision
  waiting_to_settle : Decision
  recovery : Result ReshareError (Unit {0}) → Decision

-- What a pass decided, since when it waits for the missing members, and the state after it.
abbrev pub PassEnd : Type 0
PassEnd = Decision × Option ℕ × AppState

module _ (seal : ShardState → Bytes → Option Bytes) where
  abbrev pub run_recovery : Pass → Membership → Option ℕ → AppState → PassEnd
  run_recovery pass m since s =
      let (r, s') = run_reshare_recovery seal m pass.session s in (Decision.recovery r, since, s')

  -- An established cluster: the full membership is preferred; a subset does after the settle window.
  abbrev pub established : Pass → Membership → Option ℕ → AppState → PassEnd
  established pass m since s =
      let start = unwrap_or pass.instant since in
      if m.all_discovered
      then run_recovery pass m none s
      else (if ltb (elapsed pass.instant start) subset_settle
          then (Decision.waiting_to_settle, some start, s)
          else run_recovery pass m (some start) s)

  abbrev pub fresh_cluster : Pass → Membership → Option ℕ → AppState → PassEnd
  fresh_cluster pass m since s =
      if m.all_discovered
      then (let (r, s') = run_genesis seal m.own_id m.threshold m.total pass.session s in
          (Decision.genesis r, since, s'))
      else (Decision.waiting_for_all, since, s)

  abbrev pub stored_share : Option ShardState → AppState → AppState
  stored_share none s = s
  stored_share (some shard) s = record s { shard = some shard }

  abbrev pub after_join :
      Pass → Membership → Option ℕ → Option (JoinResult × Option ShardState) → AppState → PassEnd
  after_join pass m since none s = (Decision.probe_failed, since, s)
  after_join pass m since (some (JoinResult.joined, got)) s =
      (Decision.assigned, since, stored_share got s)
  after_join pass m since (some (JoinResult.no_seed_reachable, got)) s =
      fresh_cluster pass m since s
  after_join pass m since (some (JoinResult.seed_reachable_declined, got)) s =
      established pass m since s

  abbrev pub with_membership :
      Pass → Option ℕ → Result SessionError (Option Membership) → AppState → PassEnd
  with_membership pass since (err e) s = (Decision.assembly_failed, since, s)
  with_membership pass since (ok none) s = (Decision.waiting_for_list, since, s)
  with_membership pass since (ok (some m)) s =
      after_join pass m since (join_cluster pass.signed pass.contact s.config.seeds)
        (pass.while_asking s)

  abbrev pub with_list : Pass → Option ℕ → Option (List ℕ) → AppState → PassEnd
  with_list pass since none s = (Decision.assembly_failed, since, s)
  with_list pass since (some list) s =
      with_membership pass since (assemble_participants s pass.now list) s

  -- One pass of the loop in `form_cluster`.
  unfoldable pub form_pass : Pass → Option ℕ → AppState → PassEnd
  unfolding join_cluster
  form_pass pass since s =
      if is_some s.shard then (Decision.formed, since, s) else with_list pass since pass.node_list s

  -- The catch-up of the watchdog, with the outcome of a recovery that it starts.
  abbrev pub catch_up_with :
      Session
      → Result SessionError (Option Membership)
      → AppState
      → Option (Result ReshareError (Unit {0})) × AppState
  catch_up_with session (err e) s = (none, s)
  catch_up_with session (ok none) s = (none, s)
  catch_up_with session (ok (some m)) s =
      let (r, s') = run_reshare_recovery seal m session s in (some r, s')

  abbrev pub catch_up :
      ℕ → Session → Option (List ℕ) → AppState → Option (Result ReshareError (Unit {0})) × AppState
  catch_up now session none s = (none, s)
  catch_up now session (some list) s = catch_up_with session (assemble_participants s now list) s

  -- One check of `fall_behind_watchdog`, after its sleep: the count of checks behind, what a recovery
  -- gave if one was started, and the state.
  unfoldable pub watch :
      ℕ
      → Session
      → Option (List ℕ)
      → ℕ
      → AppState
      → ℕ × Option (Result ReshareError (Unit {0})) × AppState
  watch now session list behind_checks s =
      if not (is_some s.shard)
      then (behind_checks, none, s)
      else (if leb (known_epoch s) (epoch_of s.shard)
          then (0, none, s)
          else (if ltb (behind_checks + 1) 2
              then (behind_checks + 1, none, s)
              else (let (r, s') = catch_up now session list s in (0, r, s'))))
