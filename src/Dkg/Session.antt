-- ===== src/Dkg/Session.antt =====
-- A session that ends well is a full run of the protocol (src/dkg.rs, `run_session`).
use g_kms.Prelude.{
  ℕ, ◌≡◌, sym, ap, subst, ◌∙◌, List, [], ◌++◌, none, some, lookup-erase_self, append-nil, nat_eq,
  bytes_eq, Map, Bytes, ok, ok_or, arith,
}
use g_kms.State.{AppState}
use g_kms.Membership.{SessionPeer}
use g_kms.Dkg.{
  DkgError, Protocol, Sent, Rounds, lift, session_of, echo_round, first_round, finish_session,
  from_fourth, from_third, from_second, run_session, closing, close_session, ◌>>=◌,
}
use g_kms.Dkg.Exchange.{
  IsEcho, IsFirst, after_step-ok, lift_step-ok, echo_round-ok, first_round-IsFirst,
}

abbrev pub IsLast : (p : Protocol) → Map ℕ p.Broadcast4 → p.Participant → p.Output → Type 0
IsLast p fourth p4 output =
    (p5 : p.Participant) × (p.round5 fourth p4 ≡ some p5) × (p.output p5 ≡ some output)

-- The run from a round on, with all that is sent.
abbrev pub IsRunFrom4 :
    (p : Protocol)
    → Bytes
    → ℕ
    → List SessionPeer
    → Rounds
    → AppState
    → AppState
    → Map ℕ p.Broadcast3
    → p.Participant
    → p.Output
    → List Sent
    → Type 0
IsRunFrom4 p session_id own_id peers env s s' third p3 output sent =
    (b4 : p.Broadcast4) × (p4 : p.Participant) × (fourth : Map ℕ p.Broadcast4) × (s4 : AppState)
    × (s' ≡ close_session session_id s4)
    × (p.round4 third p3 ≡ some (b4, p4))
    × IsEcho p.broadcast4 session_id 4 own_id b4 peers env.fourth s s4 sent fourth
    × IsLast p fourth p4 output

abbrev pub IsRunFrom3 :
    (p : Protocol)
    → Bytes
    → ℕ
    → List SessionPeer
    → Rounds
    → AppState
    → AppState
    → Map ℕ p.Broadcast2
    → p.Participant
    → p.Output
    → List Sent
    → Type 0
IsRunFrom3 p session_id own_id peers env s s' second p2 output sent =
    (b3 : p.Broadcast3) × (p3 : p.Participant) × (third : Map ℕ p.Broadcast3) × (s3 : AppState)
    × (sent3 : List Sent) × (later : List Sent) × (sent ≡ sent3 ++ later)
    × (p.round3 second p2 ≡ some (b3, p3))
    × IsEcho p.broadcast3 session_id 3 own_id b3 peers env.third s s3 sent3 third
    × IsRunFrom4 p session_id own_id peers env s3 s' third p3 output later

abbrev pub IsRunFrom2 :
    (p : Protocol)
    → Bytes
    → ℕ
    → List SessionPeer
    → Rounds
    → AppState
    → AppState
    → Map ℕ p.Broadcast1 × Map ℕ p.Share1
    → p.Participant
    → p.Output
    → List Sent
    → Type 0
IsRunFrom2 p session_id own_id peers env s s' (first, shares) p1 output sent =
    (b2 : p.Broadcast2) × (p2 : p.Participant) × (second : Map ℕ p.Broadcast2) × (s2 : AppState)
    × (sent2 : List Sent) × (later : List Sent) × (sent ≡ sent2 ++ later)
    × (p.round2 first shares p1 ≡ some (b2, p2))
    × IsEcho p.broadcast2 session_id 2 own_id b2 peers env.second s s2 sent2 second
    × IsRunFrom3 p session_id own_id peers env s2 s' second p2 output later

abbrev pub IsRun :
    (p : Protocol)
    → Bytes
    → p.Participant
    → List SessionPeer
    → Rounds
    → AppState
    → AppState
    → p.Output
    → List Sent
    → Type 0
IsRun p session_id participant peers env s s' output sent =
    (b1 : p.Broadcast1) × (shares : Map ℕ p.Share1) × (p1 : p.Participant) × (received : Map ℕ
        p.Broadcast1
      × Map ℕ p.Share1)
    × (s1 : AppState) × (sent1 : List Sent) × (later : List Sent) × (sent ≡ sent1 ++ later)
    × (p.round1 participant ≡ some (b1, shares, p1))
    × IsFirst p session_id (p.get_id participant) b1 shares peers env.first s s1 sent1 received
    × IsRunFrom2 p session_id (p.get_id participant) peers env s1 s' received p1 output later

-- The end of a session leaves nothing of it behind.
finish_session-ok :
    (p : Protocol) (session_id : Bytes) (fourth : Map ℕ p.Broadcast4) (p4 : p.Participant)
    (s s' : AppState) (output : p.Output) (sent : List Sent)
    → finish_session p session_id fourth p4 s ≡ (ok output, sent, s')
    → IsLast p fourth p4 output
      × (sent ≡ [])
      × (s' ≡ close_session session_id s)
      × (session_of session_id s' ≡ none)
unfolding finish_session
finish_session-ok p session_id fourth p4 s s' output sent h =
    let (p5, fifth, h5) =
      lift_step-ok (λ p5. lift (ok_or (p.output p5) DkgError.no_output) >>= closing session_id)
        (p.round5 fourth p4) (DkgError.protocol_failed 5) s output sent s' h in
    let (out, found, h6) =
      lift_step-ok (closing session_id) (p.output p5) DkgError.no_output s output sent s' h5 in
    (
      (p5, fifth, found ∙ (ground arith)),
      sym (ap (λ x. x.1) h6),
      sym (ap (λ x. x.2) h6),
      subst (λ t. session_of session_id t ≡ none) (ap (λ x. x.2) h6)
          (lookup-erase_self session_id s.dkg_sessions),
    )

from_fourth-IsRunFrom4 :
    (p : Protocol) (session_id : Bytes) (own_id : ℕ) (third : Map ℕ p.Broadcast3)
    (p3 : p.Participant) (peers : List SessionPeer) (env : Rounds) (s s' : AppState)
    (output : p.Output) (sent : List Sent)
    → from_fourth p session_id own_id third p3 peers env s ≡ (ok output, sent, s')
    → IsRunFrom4 p session_id own_id peers env s s' third p3 output sent
      × (session_of session_id s' ≡ none)
unfolding from_fourth
from_fourth-IsRunFrom4 p session_id own_id third p3 peers env s s' output sent h =
    let ((b4, p4), called, h1) =
      lift_step-ok
        (λ (b4, p4). echo_round p.broadcast4 session_id 4 own_id b4 peers env.fourth >>= λ fourth.
          finish_session p session_id fourth p4)
        (p.round4 third p3) (DkgError.protocol_failed 4) s output sent s' h in
    let (fourth, sent4, s4, more, h2, h3, all_sent) =
      after_step-ok (λ fourth. finish_session p session_id fourth p4)
        (echo_round p.broadcast4 session_id 4 own_id b4 peers env.fourth s) output sent s' h1 in
    let (last, nothing_sent, ended, closed) =
      finish_session-ok p session_id fourth p4 s4 s' output more h3 in
    let out : sent ≡ sent4 = all_sent ∙ ap (λ x. sent4 ++ x) nothing_sent ∙ append-nil sent4 in
    (
      (
        b4,
        p4,
        fourth,
        s4,
        ended,
        called,
        subst (λ x. IsEcho p.broadcast4 session_id 4 own_id b4 peers env.fourth s s4 x fourth)
            (sym out)
            (echo_round-ok p.broadcast4 session_id 4 own_id b4 peers env.fourth s s4 fourth sent4
              h2),
        last,
      ),
      closed,
    )

from_third-IsRunFrom3 :
    (p : Protocol) (session_id : Bytes) (own_id : ℕ) (second : Map ℕ p.Broadcast2)
    (p2 : p.Participant) (peers : List SessionPeer) (env : Rounds) (s s' : AppState)
    (output : p.Output) (sent : List Sent)
    → from_third p session_id own_id second p2 peers env s ≡ (ok output, sent, s')
    → IsRunFrom3 p session_id own_id peers env s s' second p2 output sent
      × (session_of session_id s' ≡ none)
unfolding from_third
from_third-IsRunFrom3 p session_id own_id second p2 peers env s s' output sent h =
    let ((b3, p3), called, h1) =
      lift_step-ok
        (λ (b3, p3). echo_round p.broadcast3 session_id 3 own_id b3 peers env.third >>= λ third.
          from_fourth p session_id own_id third p3 peers env)
        (p.round3 second p2) (DkgError.protocol_failed 3) s output sent s' h in
    let (third, sent3, s3, later, h2, h3, all_sent) =
      after_step-ok (λ third. from_fourth p session_id own_id third p3 peers env)
        (echo_round p.broadcast3 session_id 3 own_id b3 peers env.third s) output sent s' h1 in
    let (rest, closed) =
      from_fourth-IsRunFrom4 p session_id own_id third p3 peers env s3 s' output later h3 in
    let echo =
      echo_round-ok p.broadcast3 session_id 3 own_id b3 peers env.third s s3 third sent3 h2 in
    ((b3, p3, third, s3, sent3, later, all_sent, called, echo, rest), closed)

from_second-IsRunFrom2 :
    (p : Protocol) (session_id : Bytes) (own_id : ℕ)
    (received : Map ℕ p.Broadcast1 × Map ℕ p.Share1) (p1 : p.Participant) (peers : List SessionPeer)
    (env : Rounds) (s s' : AppState) (output : p.Output) (sent : List Sent)
    → from_second p session_id own_id received p1 peers env s ≡ (ok output, sent, s')
    → IsRunFrom2 p session_id own_id peers env s s' received p1 output sent
      × (session_of session_id s' ≡ none)
unfolding from_second
from_second-IsRunFrom2 p session_id own_id (first, shares) p1 peers env s s' output sent h =
    let ((b2, p2), called, h1) =
      lift_step-ok
        (λ (b2, p2). echo_round p.broadcast2 session_id 2 own_id b2 peers env.second >>= λ second.
          from_third p session_id own_id second p2 peers env)
        (p.round2 first shares p1) (DkgError.protocol_failed 2) s output sent s' h in
    let (second, sent2, s2, later, h2, h3, all_sent) =
      after_step-ok (λ second. from_third p session_id own_id second p2 peers env)
        (echo_round p.broadcast2 session_id 2 own_id b2 peers env.second s) output sent s' h1 in
    let (rest, closed) =
      from_third-IsRunFrom3 p session_id own_id second p2 peers env s2 s' output later h3 in
    let echo =
      echo_round-ok p.broadcast2 session_id 2 own_id b2 peers env.second s s2 second sent2 h2 in
    ((b2, p2, second, s2, sent2, later, all_sent, called, echo, rest), closed)

-- A session that ends well is a full run of the protocol: the five rounds of the participant succeeded
-- in their order. Each of the first four was followed by a wait, at one of whose looks the buffer of
-- that very round of this session had a message of every peer; what the next round was given is parsed
-- from those messages, and from the second round on has this node's own too, unless a message under
-- its own id was buffered. What was sent is its message of the rounds one to four to every peer, with
-- the encrypted shares in the first; the result is that of the participant after the fifth. Nothing
-- of the session stays buffered.
pub run_session-IsRun :
    (p : Protocol) (session_id : Bytes) (participant : p.Participant) (peers : List SessionPeer)
    (env : Rounds) (s s' : AppState) (output : p.Output) (sent : List Sent)
    → run_session p session_id participant peers env s ≡ (ok output, sent, s')
    → IsRun p session_id participant peers env s s' output sent × (session_of session_id s' ≡ none)
unfolding run_session
run_session-IsRun p session_id participant peers env s s' output sent h =
    let own_id = p.get_id participant in
    let ((b1, shares, p1), called, h1) =
      lift_step-ok
        (λ (b1, shares, p1).
          first_round p session_id own_id b1 shares peers env.first >>= λ received.
          from_second p session_id own_id received p1 peers env)
        (p.round1 participant) (DkgError.protocol_failed 1) s output sent s' h in
    let (received, sent1, s1, later, h2, h3, all_sent) =
      after_step-ok (λ received. from_second p session_id own_id received p1 peers env)
        (first_round p session_id own_id b1 shares peers env.first s) output sent s' h1 in
    let (rest, closed) =
      from_second-IsRunFrom2 p session_id own_id received p1 peers env s1 s' output later h3 in
    let (first, opened) =
      first_round-IsFirst p session_id own_id b1 shares peers env.first s s1 received sent1 h2 in
    ((b1, shares, p1, received, s1, sent1, later, all_sent, called, first, rest), closed)
