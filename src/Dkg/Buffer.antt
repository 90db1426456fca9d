-- ===== src/Dkg/Buffer.antt =====
-- The buffer of round messages, over any sequence of arrivals (src/server.rs, src/grpc.rs).
use g_kms.Prelude.{
  ℕ, ◌≡◌, refl, ap, ◌∙◌, subst, sym, ◌==◌, ◌=?◌, beq_bytes, beq_bytes_iff, Bool-cases, inl, inr,
  Bool, ◌&&◌, if◌then◌else◌, List, [], ◌∷◌, Option, none, some, lookup, insert, lookup-insert,
  nat_eq, bytes_eq, unwrap_or, get_or_default, Bytes, arith,
}
use g_kms.State.{AppState, DkgSession, new_session, record_round}
use g_kms.Dkg.{RoundMap, session_of, round_of, buffered, deliver}

-- One arrival of a round message.
pub record Arrival : Type 0 where
  pub session_id : Bytes
  pub round : ℕ
  pub from_index : ℕ
  pub broadcast : Bytes
  pub p2p : Bytes

abbrev pub deliver_all : List Arrival → AppState → AppState
deliver_all [] s = s
deliver_all (a ∷ log) s =
    deliver_all log (deliver a.session_id a.round a.from_index a.broadcast a.p2p s)

abbrev pub is_from : Bytes → ℕ → ℕ → Arrival → Bool
is_from session_id round from a =
    beq_bytes a.session_id session_id && (a.round == round && a.from_index == from)

-- The last message of a sender in a round, of a log with the latest arrival at its end.
abbrev pub latest : Bytes → ℕ → ℕ → List Arrival → Option (Bytes × Bytes) → Option (Bytes × Bytes)
latest session_id round from [] before = before
latest session_id round from (a ∷ log) before =
    latest session_id round from log
      (if is_from session_id round from a then some (a.broadcast, a.p2p) else before)

abbrev pub message_of : ℕ → Option RoundMap → Option (Bytes × Bytes)
message_of from none = none
message_of from (some msgs) = lookup from msgs

-- The session of an arrival after it.
abbrev recorded : Arrival → AppState → DkgSession
recorded a s =
    record_round (unwrap_or new_session (session_of a.session_id s)) a.round a.from_index
      a.broadcast a.p2p

session_of-deliver :
    (a : Arrival) (session_id : Bytes) (s : AppState)
    → session_of session_id (deliver a.session_id a.round a.from_index a.broadcast a.p2p s)
      ≡ (if a.session_id =? session_id then some (recorded a s) else session_of session_id s)
unfolding deliver
session_of-deliver a session_id s =
    lookup-insert a.session_id session_id (recorded a s) s.dkg_sessions

-- The round of a session that is not there is as empty as that of a new one.
message_of-default :
    (from : ℕ) (o : Option RoundMap) → lookup from (unwrap_or [] o) ≡ message_of from o
unfolding lookup
message_of-default from none = refl
message_of-default from (some msgs) = refl

message_of-new_session :
    (round from : ℕ) (o : Option DkgSession)
    → message_of from (lookup round (unwrap_or new_session o).rounds)
      ≡ message_of from (round_of round o)
unfolding lookup
message_of-new_session round from none = refl
message_of-new_session round from (some d) = refl

message_of-record_round :
    (d : DkgSession) (r f : ℕ) (broadcast p2p : Bytes) (round from : ℕ)
    → message_of from (lookup round (record_round d r f broadcast p2p).rounds) ≡ (
        if r == round && f == from
        then some (broadcast, p2p)
        else message_of from (lookup round d.rounds))
unfolding record_round
message_of-record_round d r f broadcast p2p round from =
    let msgs = get_or_default [] r d.rounds in
    let v : Bytes × Bytes = (broadcast, p2p) in
    ap (message_of from) (lookup-insert r round (insert f v msgs) d.rounds)
    ∙ (elim (Bool-cases (r == round)) [
      | inr other ↦ ground arith
      | inl same ↦
          let e : r ≡ round = ground arith in
          let w : message_of from (lookup round d.rounds) ≡ lookup from msgs =
            subst (λ n. message_of from (lookup n d.rounds) ≡ lookup from msgs) e
              (sym (message_of-default from (lookup r d.rounds))) in
          ground (arith, lookup-insert f from v msgs)
    ])

message_of-deliver :
    (a : Arrival) (session_id : Bytes) (round from : ℕ) (s : AppState)
    → message_of from
        (buffered session_id round (deliver a.session_id a.round a.from_index a.broadcast a.p2p s))
      ≡ (if is_from session_id round from a
          then some (a.broadcast, a.p2p)
          else message_of from (buffered session_id round s))
message_of-deliver a session_id round from s =
    ap (λ o. message_of from (round_of round o)) (session_of-deliver a session_id s)
    ∙ (elim (Bool-cases (a.session_id =? session_id)) [
      | inr other ↦
          ap
            (λ b.
              message_of from
                (round_of round (if b then some (recorded a s) else session_of session_id s)))
            other
          ∙ ground arith
      | inl same ↦
          let e : a.session_id ≡ session_id = (beq_bytes_iff a.session_id session_id).0 same in
          let d : DkgSession = unwrap_or new_session (session_of a.session_id s) in
          let w : message_of from (lookup round d.rounds)
              ≡ message_of from (buffered session_id round s) =
            message_of-new_session round from (session_of a.session_id s)
            ∙ ap (λ n. message_of from (buffered n round s)) e in
          ap
            (λ b.
              message_of from
                (round_of round (if b then some (recorded a s) else session_of session_id s)))
            same
          ∙ message_of-record_round d a.round a.from_index a.broadcast a.p2p round from
          ∙ ground (arith, w)
    ])

-- After any arrivals, in any order, the buffer holds of each sender in each round of each session the
-- message that came last, and what it held before of those that sent nothing.
pub deliver_all-latest :
    (log : List Arrival) (session_id : Bytes) (round from : ℕ) (s : AppState)
    → message_of from (buffered session_id round (deliver_all log s))
      ≡ latest session_id round from log (message_of from (buffered session_id round s))
deliver_all-latest [] session_id round from s = refl
deliver_all-latest (a ∷ log) session_id round from s =
    deliver_all-latest log session_id round from
      (deliver a.session_id a.round a.from_index a.broadcast a.p2p s)
    ∙ ap (latest session_id round from log) (message_of-deliver a session_id round from s)
