-- ===== src/Dkg/Waiting.antt =====
-- The buffer of round messages and the barrier of a round (src/dkg.rs, `await_round`; src/grpc.rs,
-- `dkg_round`).
use g_kms.Prelude.{
  ℕ, Bool, false, if◌then◌else◌, all, is_some, List, [], ◌∷◌, Option, none, some, Map, lookup,
  insert, unwrap_or, nat_eq, bytes_eq, Bytes, Result, ok, err,
}
use g_kms.State.{AppState, DkgSession, new_session, record_round}

-- What is buffered of a round: for each sender its broadcast and its p2p payload.
abbrev pub RoundMap : Type 0
RoundMap = Map ℕ (Bytes × Bytes)

pub data DkgError : Type 0 where
  protocol_failed : ℕ → DkgError
  not_serialized : DkgError
  not_parsed : DkgError
  missing_share : ℕ → DkgError
  not_encrypted : ℕ → DkgError
  not_signed : DkgError
  timed_out : ℕ → DkgError
  no_output : DkgError

abbrev pub session_of : Bytes → AppState → Option DkgSession
session_of session_id s = lookup session_id s.dkg_sessions

-- `entry(session_id).or_default()`.
abbrev pub open_session : Bytes → AppState → AppState
open_session session_id s = record s {
  dkg_sessions = insert session_id (unwrap_or new_session (session_of session_id s)) s.dkg_sessions;
}

abbrev pub round_of : ℕ → Option DkgSession → Option RoundMap
round_of round none = none
round_of round (some d) = lookup round d.rounds

abbrev pub buffered : Bytes → ℕ → AppState → Option RoundMap
buffered session_id round s = round_of round (session_of session_id s)

abbrev pub complete : List ℕ → Option RoundMap → Bool
complete expected none = false
complete expected (some msgs) = all (λ id. is_some (lookup id msgs)) expected

-- The loop of `await_round`: a look, and, unless the deadline has passed, another after a wake-up.
unfoldable pub await_loop :
    Bytes → ℕ → List ℕ → List (AppState → AppState) → AppState → Result DkgError RoundMap × AppState
await_loop session_id round expected [] s =
    if complete expected (buffered session_id round s)
    then (ok (unwrap_or [] (buffered session_id round s)), s)
    else (err (DkgError.timed_out round), s)
await_loop session_id round expected (f ∷ fs) s =
    let rest = await_loop session_id round expected fs (f s) in
    if complete expected (buffered session_id round s)
    then (ok (unwrap_or [] (buffered session_id round s)), s)
    else rest

-- `await_round`.
unfoldable pub await_round :
    Bytes → ℕ → List ℕ → List (AppState → AppState) → AppState → Result DkgError RoundMap × AppState
unfolding await_loop
await_round session_id round expected looks s =
    await_loop session_id round expected looks (open_session session_id s)

-- What the `dkg_round` handler stores of a message that arrives (src/grpc.rs).
unfoldable pub deliver : Bytes → ℕ → ℕ → Bytes → Bytes → AppState → AppState
unfolding record_round
deliver session_id round from_index broadcast p2p s = record s {
  dkg_sessions =
      insert session_id
        (record_round (unwrap_or new_session (session_of session_id s)) round from_index broadcast
          p2p)
        s.dkg_sessions;
}
