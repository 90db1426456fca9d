-- ===== src/Dkg/Retry.antt =====
-- What a failed session leaves behind (src/dkg.rs, `run_session`).
use g_kms.Prelude.{
  sym, true, is_ok, ℕ, ◌≡◌, refl, ap, subst, ◌∙◌, Bool-cases, inl, inr, All, List, [], ◌∷◌, Option,
  none, some, lookup, lookup-insert_self, bytes_eq, Map, Bytes, Result, ok, err, ok_or, unwrap_or,
  arith,
}
use g_kms.State.{AppState, DkgSession, new_session}
use g_kms.Membership.{SessionPeer}
use g_kms.Dkg.{
  DkgError, Codec, Protocol, Sent, Round, Driver, lift, after_step, open_session, round_of,
  buffered, complete, await_loop, await_round, exchange, echo_round, finish_session, session_of,
  ◌>>=◌, Rounds, first_round, from_fourth, from_third, from_second, run_session,
}
use g_kms.Dkg.Barrier.{await_round_iff}
use g_kms.Dkg.Exchange.{ids_of, first_round-IsFirst}

-- Opening a session takes nothing from it.
open_session-buffered :
    (session_id : Bytes) (round : ℕ) (s : AppState)
    → buffered session_id round (open_session session_id s) ≡ buffered session_id round s
unfolding lookup
open_session-buffered session_id round s =
    ap (round_of round) (
      lookup-insert_self session_id (unwrap_or new_session (session_of session_id s))
        s.dkg_sessions)
    ∙ opened (session_of session_id s)
  where
    opened :
        (o : Option DkgSession) → round_of round (some (unwrap_or new_session o)) ≡ round_of round o
    opened none = refl
    opened (some d) = refl

module _ (Q : AppState → Type 0) where
  -- A step that keeps a property of the state, and one that keeps it when it fails.
  abbrev pub Keeps : {A : Type 0} → Driver A → Type 0
  Keeps d = (s : AppState) → Q s → Q (d s).2

  abbrev pub KeepsOnErr : {A : Type 0} → Driver A → Type 0
  KeepsOnErr d = (s : AppState) (e : DkgError) → (d s).0 ≡ err e → Q s → Q (d s).2

  -- The other tasks keep it during a round.
  abbrev pub IsUndisturbed : Round → Type 0
  IsUndisturbed env =
      ((s : AppState) → Q s → Q (env.while_sending s))
      × All (λ f. (s : AppState) → Q s → Q (f s)) env.looks

  after_step-Keeps :
      {A B : Type 0} (f : A → Driver B) (x : Result DkgError A × List Sent × AppState)
      → Q x.2
      → ((a : A) → Keeps (f a))
      → Q (after_step f x).2
  after_step-Keeps f (err e, sent, s) q k = q
  after_step-Keeps f (ok a, sent, s) q k = k a s q

  after_step-KeepsOnErr :
      {A B : Type 0} (f : A → Driver B) (x : Result DkgError A × List Sent × AppState)
      (e : DkgError)
      → (after_step f x).0 ≡ err e
      → Q x.2
      → ((a : A) → KeepsOnErr (f a))
      → Q (after_step f x).2
  after_step-KeepsOnErr f (err e', sent, s) e h q k = q
  after_step-KeepsOnErr f (ok a, sent, s) e h q k = k a s e h q

-- A property of the state that opening the session keeps.
module _ (session_id : Bytes) (Q : AppState → Type 0)
    (opens : (s : AppState) → Q s → Q (open_session session_id s)) where
  await_loop_keeps :
      (round : ℕ) (expected : List ℕ) (looks : List (AppState → AppState)) (s : AppState)
      → All (λ f. (s : AppState) → Q s → Q (f s)) looks
      → Q s
      → Q (await_loop session_id round expected looks s).1
  unfolding await_loop
  await_loop_keeps round expected [] s k q =
      elim (Bool-cases (complete expected (buffered session_id round s))) [
        | inl open_now ↦ subst Q (ground arith) q
        | inr closed ↦ subst Q (ground arith) q
      ]
  await_loop_keeps round expected (f ∷ fs) s k q =
      elim (Bool-cases (complete expected (buffered session_id round s))) [
        | inl open_now ↦ subst Q (ground arith) q
        | inr closed ↦
            subst Q (ground arith) (await_loop_keeps round expected fs (f s) k.1 (k.0 s q))
      ]

  exchange-Keeps :
      (round own_id : ℕ) (broadcast : Bytes) (p2p : Map ℕ Bytes) (peers : List SessionPeer)
      (env : Round)
      → IsUndisturbed Q env
      → Keeps Q (exchange session_id round own_id broadcast p2p peers env)
  unfolding exchange await_round
  exchange-Keeps round own_id broadcast p2p peers env (sending, looking) s q =
      elim (Bool-cases env.signed) [
        | inr unsigned ↦ subst Q (ground arith) q
        | inl signed ↦ subst Q (ground arith) (
            await_loop_keeps round (ids_of peers) env.looks
              (open_session session_id (env.while_sending s)) looking
              (opens (env.while_sending s) (sending s q)))
      ]

  echo_round-Keeps :
      {T : Type 0} (c : Codec T) (round own_id : ℕ) (own : T) (peers : List SessionPeer)
      (env : Round)
      → IsUndisturbed Q env
      → Keeps Q (echo_round c session_id round own_id own peers env)
  unfolding echo_round
  echo_round-Keeps c round own_id own peers env k s q =
      after_step-Keeps Q _ (lift (ok_or (c.ser own) DkgError.not_serialized) s) q λ bytes s1 q1.
        after_step-Keeps Q _ (exchange session_id round own_id bytes [] peers env s1)
          (exchange-Keeps round own_id bytes [] peers env k s1 q1) (λ received s2 q2. q2)

  finish_session-KeepsOnErr :
      (p : Protocol) (fourth : Map ℕ p.Broadcast4) (p4 : p.Participant)
      → KeepsOnErr Q (finish_session p session_id fourth p4)
  unfolding finish_session
  finish_session-KeepsOnErr p fourth p4 s e h q =
      after_step-KeepsOnErr Q _ (lift (ok_or (p.round5 fourth p4) (DkgError.protocol_failed 5)) s) e
        h q
        λ p5 s1 e1 h1 q1.
          after_step-KeepsOnErr Q _ (lift (ok_or (p.output p5) DkgError.no_output) s1) e1 h1 q1
            (λ out s2 e2 h2 q2. ground arith)

  from_fourth-KeepsOnErr :
      (p : Protocol) (own_id : ℕ) (third : Map ℕ p.Broadcast3) (p3 : p.Participant)
      (peers : List SessionPeer) (env : Rounds)
      → IsUndisturbed Q env.fourth
      → KeepsOnErr Q (from_fourth p session_id own_id third p3 peers env)
  unfolding from_fourth
  from_fourth-KeepsOnErr p own_id third p3 peers env k s e h q =
      after_step-KeepsOnErr Q _ (lift (ok_or (p.round4 third p3) (DkgError.protocol_failed 4)) s) e
        h q
        λ (b4, p4) s1 e1 h1 q1.
          after_step-KeepsOnErr Q _
            (echo_round p.broadcast4 session_id 4 own_id b4 peers env.fourth s1) e1 h1
            (echo_round-Keeps p.broadcast4 4 own_id b4 peers env.fourth k s1 q1)
            (λ fourth. finish_session-KeepsOnErr p fourth p4)

  from_third-KeepsOnErr :
      (p : Protocol) (own_id : ℕ) (second : Map ℕ p.Broadcast2) (p2 : p.Participant)
      (peers : List SessionPeer) (env : Rounds)
      → IsUndisturbed Q env.third
      → IsUndisturbed Q env.fourth
      → KeepsOnErr Q (from_third p session_id own_id second p2 peers env)
  unfolding from_third
  from_third-KeepsOnErr p own_id second p2 peers env k3 k4 s e h q =
      after_step-KeepsOnErr Q _ (lift (ok_or (p.round3 second p2) (DkgError.protocol_failed 3)) s) e
        h q
        λ (b3, p3) s1 e1 h1 q1.
          after_step-KeepsOnErr Q _
            (echo_round p.broadcast3 session_id 3 own_id b3 peers env.third s1) e1 h1
            (echo_round-Keeps p.broadcast3 3 own_id b3 peers env.third k3 s1 q1)
            (λ third. from_fourth-KeepsOnErr p own_id third p3 peers env k4)

  from_second-KeepsOnErr :
      (p : Protocol) (own_id : ℕ) (received : Map ℕ p.Broadcast1 × Map ℕ p.Share1)
      (p1 : p.Participant) (peers : List SessionPeer) (env : Rounds)
      → IsUndisturbed Q env.second
      → IsUndisturbed Q env.third
      → IsUndisturbed Q env.fourth
      → KeepsOnErr Q (from_second p session_id own_id received p1 peers env)
  unfolding from_second
  from_second-KeepsOnErr p own_id (first, shares) p1 peers env k2 k3 k4 s e h q =
      after_step-KeepsOnErr Q _
        (lift (ok_or (p.round2 first shares p1) (DkgError.protocol_failed 2)) s) e h q
        λ (b2, p2) s1 e1 h1 q1.
          after_step-KeepsOnErr Q _
            (echo_round p.broadcast2 session_id 2 own_id b2 peers env.second s1) e1 h1
            (echo_round-Keeps p.broadcast2 2 own_id b2 peers env.second k2 s1 q1)
            (λ second. from_third-KeepsOnErr p own_id second p2 peers env k3 k4)

-- Everyone's message of the first round is buffered.
abbrev pub FirstComplete : Bytes → List SessionPeer → AppState → Type 0
FirstComplete session_id peers s = complete (ids_of peers) (buffered session_id 1 s) ≡ true

open_session-FirstComplete :
    (session_id : Bytes) (peers : List SessionPeer) (s : AppState)
    → FirstComplete session_id peers s
    → FirstComplete session_id peers (open_session session_id s)
open_session-FirstComplete session_id peers s q =
    ap (complete (ids_of peers)) (open_session-buffered session_id 1 s) ∙ q

-- When a session fails after its first round, and other tasks take no message of that round away,
-- the messages of the round stay buffered: with the same session id, the barrier of the first
-- round opens again at the first look, before any message of the new attempt has come.
pub run_session-retry :
    (p : Protocol) (session_id : Bytes) (participant p1 : p.Participant) (b1 : p.Broadcast1)
    (shares : Map ℕ p.Share1) (received : Map ℕ p.Broadcast1 × Map ℕ p.Share1)
    (peers : List SessionPeer) (env : Rounds) (s s1 : AppState) (sent : List Sent) (e : DkgError)
    → p.round1 participant ≡ some (b1, shares, p1)
    → first_round p session_id (p.get_id participant) b1 shares peers env.first s
      ≡ (ok received, sent, s1)
    → IsUndisturbed (FirstComplete session_id peers) env.second
    → IsUndisturbed (FirstComplete session_id peers) env.third
    → IsUndisturbed (FirstComplete session_id peers) env.fourth
    → (run_session p session_id participant peers env s).0 ≡ err e
    → is_ok
        (await_round session_id 1
          (ids_of peers)
          []
          (run_session p session_id participant peers env s).2).0
      ≡ true
unfolding run_session
run_session-retry p session_id participant p1 b1 shares received peers env s s1 sent e called first
      k2 k3 k4 h =
    let own_id = p.get_id participant in
    let rest : Map ℕ p.Broadcast1 × Map ℕ p.Share1 → Driver p.Output =
      λ r. from_second p session_id own_id r p1 peers env in
    let run : run_session p session_id participant peers env s
        ≡ after_step rest (ok received, sent, s1) =
      ap
        (λ o.
          after_step
            (λ (b1, shares, p1).
              first_round p session_id own_id b1 shares peers env.first >>= λ received.
              from_second p session_id own_id received p1 peers env)
            (lift (ok_or o (DkgError.protocol_failed 1)) s))
        called
      ∙ ap (after_step rest) first in
    let buffered_first =
      (first_round-IsFirst p session_id own_id b1 shares peers env.first s s1 received sent
        first).1 in
    let kept =
      from_second-KeepsOnErr session_id (FirstComplete session_id peers)
        (open_session-FirstComplete session_id peers) p own_id received p1 peers env k2 k3 k4 s1 e
        (ap (λ x. x.0) (sym run) ∙ h) buffered_first in
    let left = subst (λ x. FirstComplete session_id peers x.2) (sym run) kept in
    let after = (run_session p session_id participant peers env s).2 in
    await_round_iff session_id 1 (ids_of peers) [] after tt
    ∙ open_session-FirstComplete session_id peers after left
