-- ===== src/Dkg.antt =====
-- src/dkg.rs: the driver of a DKG or reshare session, and the barrier of its rounds. The participant
-- (gennaro-dkg), its messages' serialisation (serde_bare) and ECIES are libraries: a parameter.
pub mod Barrier
pub mod Buffer
pub mod Exchange
pub mod Session
pub mod Retry
pub mod Parts
pub mod Genesis
mod Waiting
mod Tests
pub use Waiting.{RoundMap, DkgError, session_of, open_session, round_of, buffered, complete}
unfoldable pub use Waiting.{await_loop, await_round, deliver}
use g_kms.Prelude.{
  ℕ, Bool, true, false, if◌then◌else◌, all, is_some, List, [], ◌∷◌, ◌++◌, map, Option, none, some,
  Map, lookup, insert, erase, get_or_default, unwrap_or, nat_eq, bytes_eq, Bytes, Result, ok, err,
  ok_or,
}
use g_kms.State.{AppState, DkgSession, new_session, record_round}
use g_kms.Membership.{SessionPeer}

-- `ser` and `de` at one type.
pub record Codec (T : Type 0) : Type 0 where
  pub ser : T → Option Bytes
  pub de : Bytes → Option T

pub record Protocol : Type 1 where
  pub Participant : Type 0
  pub Broadcast1 : Type 0
  pub Share1 : Type 0
  pub Broadcast2 : Type 0
  pub Broadcast3 : Type 0
  pub Broadcast4 : Type 0
  pub Output : Type 0
  pub get_id : Participant → ℕ
  pub round1 : Participant → Option (Broadcast1 × Map ℕ Share1 × Participant)
  pub round2 : Map ℕ Broadcast1 → Map ℕ Share1 → Participant → Option (Broadcast2 × Participant)
  pub round3 : Map ℕ Broadcast2 → Participant → Option (Broadcast3 × Participant)
  pub round4 : Map ℕ Broadcast3 → Participant → Option (Broadcast4 × Participant)
  pub round5 : Map ℕ Broadcast4 → Participant → Option Participant
  -- `get_secret_share` and `get_public_key`
  pub output : Participant → Option Output
  pub broadcast1 : Codec Broadcast1
  pub share1 : Codec Share1
  pub broadcast2 : Codec Broadcast2
  pub broadcast3 : Codec Broadcast3
  pub broadcast4 : Codec Broadcast4
  pub ecies_encrypt : Bytes → Bytes → Option Bytes

-- One message that is sent. Whether it arrives is not known to the sender, which only logs a failure.
pub record Sent : Type 0 where
  pub to : Bytes
  pub round : ℕ
  pub from_index : ℕ
  pub broadcast : Bytes
  pub p2p : Bytes

-- The surroundings of one round: whether the request is signed, what other tasks do to the state while
-- it is sent, and before each further look at the buffer until the deadline.
pub record Round : Type 0 where
  pub signed : Bool
  pub while_sending : AppState → AppState
  pub looks : List (AppState → AppState)

-- `broadcast_round`: one message to each peer, with its own p2p payload where it has one.
abbrev pub messages : ℕ → ℕ → Bytes → Map ℕ Bytes → List SessionPeer → List Sent
messages round own_id broadcast p2p peers =
    map
      (λ p. record {
        to = p.grpc_url;
        round = round;
        from_index = own_id;
        broadcast = broadcast;
        p2p = get_or_default [] p.id p2p;
      })
      peers

-- A step of the driver: what it sends, its result and the state.
abbrev pub Driver : Type 0 → Type 0
Driver A = AppState → Result DkgError A × List Sent × AppState

abbrev pub after_step :
    {A B : Type 0}
    → (A → Driver B)
    → Result DkgError A × List Sent × AppState
    → Result DkgError B × List Sent × AppState
after_step f (err e, sent, s) = (err e, sent, s)
after_step f (ok a, sent, s) = let (r, more, s') = f a s in (r, sent ++ more, s')

infixl 5 ◌>>=◌
abbrev pub ◌>>=◌ : {A B : Type 0} → Driver A → (A → Driver B) → Driver B
◌>>=◌ m f s = after_step f (m s)

abbrev pub lift : {A : Type 0} → Result DkgError A → Driver A
lift r s = (r, [], s)

-- `broadcast_round` and then `await_round`.
unfoldable pub exchange :
    Bytes → ℕ → ℕ → Bytes → Map ℕ Bytes → List SessionPeer → Round → Driver RoundMap
unfolding await_round
exchange session_id round own_id broadcast p2p peers env s =
    if env.signed
    then (let (r, s') =
          await_round session_id round (map (λ p. p.id) peers) env.looks (env.while_sending s) in
        (r, messages round own_id broadcast p2p peers, s'))
    else (err DkgError.not_signed, [], s)

-- The messages of a round as the protocol takes them, each put in place of an earlier one of its sender.
unfoldable pub parse_broadcasts :
    {T : Type 0} → Codec T → Map ℕ T → RoundMap → Result DkgError (Map ℕ T)
parse_broadcasts c acc [] = ok acc
parse_broadcasts c acc ((from, (broadcast, p2p)) ∷ r) = elim (c.de broadcast) [
  | none ↦ err DkgError.not_parsed
  | some b ↦ parse_broadcasts c (insert from b acc) r
]

unfoldable pub parse_first :
    {T S : Type 0}
    → Codec T
    → Codec S
    → Map ℕ T
    → Map ℕ S
    → RoundMap
    → Result DkgError (Map ℕ T × Map ℕ S)
parse_first c d bs ps [] = ok (bs, ps)
parse_first c d bs ps ((from, (broadcast, p2p)) ∷ r) = elim (c.de broadcast) [
  | none ↦ err DkgError.not_parsed
  | some b ↦ elim (d.de p2p) [
    | none ↦ err DkgError.not_parsed
    | some p ↦ parse_first c d (insert from b bs) (insert from p ps) r
  ]
]

-- The p2p payloads of the first round, one for each peer, encrypted to it.
unfoldable pub encrypt_shares :
    (p : Protocol) → Map ℕ p.Share1 → Map ℕ Bytes → List SessionPeer → Result DkgError (Map ℕ Bytes)
encrypt_shares p shares acc [] = ok acc
encrypt_shares p shares acc (peer ∷ peers) = elim (lookup peer.id shares) [
  | none ↦ err (DkgError.missing_share peer.id)
  | some share ↦ elim (p.share1.ser share) [
    | none ↦ err DkgError.not_serialized
    | some payload ↦ elim (p.ecies_encrypt peer.pubkey payload) [
      | none ↦ err (DkgError.not_encrypted peer.id)
      | some enc ↦ encrypt_shares p shares (insert peer.id enc acc) peers
    ]
  ]
]

-- A round from the second on: the broadcast goes out alone, and this node's own is put in first.
unfoldable pub echo_round :
    {T : Type 0} → Codec T → Bytes → ℕ → ℕ → T → List SessionPeer → Round → Driver (Map ℕ T)
unfolding exchange parse_broadcasts
echo_round c session_id round own_id own peers env = do
  bytes ← lift (ok_or (c.ser own) DkgError.not_serialized)
  received ← exchange session_id round own_id bytes [] peers env
  lift (parse_broadcasts c (insert own_id own []) received)

-- Round 1: the commitments and the encrypted shares.
unfoldable pub first_round :
    (p : Protocol)
    → Bytes
    → ℕ
    → p.Broadcast1
    → Map ℕ p.Share1
    → List SessionPeer
    → Round
    → Driver (Map ℕ p.Broadcast1 × Map ℕ p.Share1)
unfolding exchange encrypt_shares parse_first
first_round p session_id own_id own shares peers env = do
  bytes ← lift (ok_or (p.broadcast1.ser own) DkgError.not_serialized)
  payloads ← lift (encrypt_shares p shares [] peers)
  received ← exchange session_id 1 own_id bytes payloads peers env
  lift (parse_first p.broadcast1 p.share1 [] [] received)

abbrev pub close_session : Bytes → AppState → AppState
close_session session_id s = record s { dkg_sessions = erase session_id s.dkg_sessions }

abbrev pub closing : {A : Type 0} → Bytes → A → Driver A
closing session_id a s = (ok a, [], close_session session_id s)

-- The surroundings of the four rounds.
pub record Rounds : Type 0 where
  pub first : Round
  pub second : Round
  pub third : Round
  pub fourth : Round

-- The end of a session, after the fourth round.
unfoldable pub finish_session :
    (p : Protocol) → Bytes → Map ℕ p.Broadcast4 → p.Participant → Driver p.Output
finish_session p session_id fourth p4 = do
  p5 ← lift (ok_or (p.round5 fourth p4) (DkgError.protocol_failed 5))
  output ← lift (ok_or (p.output p5) DkgError.no_output)
  closing session_id output

unfoldable pub from_fourth :
    (p : Protocol)
    → Bytes
    → ℕ
    → Map ℕ p.Broadcast3
    → p.Participant
    → List SessionPeer
    → Rounds
    → Driver p.Output
unfolding echo_round finish_session
from_fourth p session_id own_id third p3 peers env = do
  (b4, p4) ← lift (ok_or (p.round4 third p3) (DkgError.protocol_failed 4))
  fourth ← echo_round p.broadcast4 session_id 4 own_id b4 peers env.fourth
  finish_session p session_id fourth p4

unfoldable pub from_third :
    (p : Protocol)
    → Bytes
    → ℕ
    → Map ℕ p.Broadcast2
    → p.Participant
    → List SessionPeer
    → Rounds
    → Driver p.Output
unfolding echo_round from_fourth
from_third p session_id own_id second p2 peers env = do
  (b3, p3) ← lift (ok_or (p.round3 second p2) (DkgError.protocol_failed 3))
  third ← echo_round p.broadcast3 session_id 3 own_id b3 peers env.third
  from_fourth p session_id own_id third p3 peers env

unfoldable pub from_second :
    (p : Protocol)
    → Bytes
    → ℕ
    → Map ℕ p.Broadcast1 × Map ℕ p.Share1
    → p.Participant
    → List SessionPeer
    → Rounds
    → Driver p.Output
unfolding echo_round from_third
from_second p session_id own_id (first, shares) p1 peers env = do
  (b2, p2) ← lift (ok_or (p.round2 first shares p1) (DkgError.protocol_failed 2))
  second ← echo_round p.broadcast2 session_id 2 own_id b2 peers env.second
  from_third p session_id own_id second p2 peers env

-- `run_session`.
unfoldable pub run_session :
    (p : Protocol) → Bytes → p.Participant → List SessionPeer → Rounds → Driver p.Output
unfolding first_round from_second
run_session p session_id participant peers env = do
  (b1, shares1, p1) ← lift (ok_or (p.round1 participant) (DkgError.protocol_failed 1))
  received ← first_round p session_id (p.get_id participant) b1 shares1 peers env.first
  from_second p session_id (p.get_id participant) received p1 peers env
