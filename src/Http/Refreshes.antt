-- ===== src/Http/Refreshes.antt =====
-- Who can refresh the committee's shares over HTTP (src/server.rs, `handle_refresh`).
use g_kms.Prelude.{
  if◌then◌else◌, ℕ, ==_iff, ◌==◌, ◌⊎◌, inl, inr, false, Bool-cases, Result-cases, arith, ◌≡◌, refl,
  ap, ◌∙◌, true, Option, Bytes, Result, ok, err, >>=-eq-ok, ensure_step, ensure-eq-ok, is_ok,
}
use g_kms.Errors.{KmsError}
use g_kms.State.{AppState, ShardState}
use g_kms.I64.{in_tolerance}
use g_kms.Reshare.{ReshareError, trigger_refresh}
use g_kms.Metrics.Registry.{Metrics}
use g_kms.Http.{
  count_refresh, Web, RefreshRequest, RefreshWorld, refresh_message, recover_eip191_address,
  is_owner, refreshed, handle_refresh,
}

-- The owner that the chain names has signed this refresh within the window.
abbrev pub IsOwners : Web → RefreshRequest → RefreshWorld → AppState → Type 0
IsOwners w req env s =
    (in_tolerance env.now req.timestamp s.config.timestamp_tolerance_secs ≡ true)
    × (owner : ℕ) × (env.owner ≡ ok owner)
    × (recover_eip191_address w (refresh_message w req.timestamp) req.signature ≡ ok owner)

is_owner-IsOwners :
    (w : Web) (req : RefreshRequest) (env : RefreshWorld) (s : AppState)
    → is_owner w req env s ≡ ok tt
    → IsOwners w req env s
is_owner-IsOwners w req env s h =
    let (recent, h1) =
      ensure_step (in_tolerance env.now req.timestamp s.config.timestamp_tolerance_secs) _ _ h in
    let (recovered, signed, h2) =
      >>=-eq-ok (recover_eip191_address w (refresh_message w req.timestamp) req.signature) _ h1 in
    let (owner, named, h3) = >>=-eq-ok env.owner _ h2 in
    let same : recovered ≡ owner = (==_iff recovered owner).0 (ensure-eq-ok _ _ h3) in
    (recent, owner, named, signed ∙ ap ok same)

-- Why a refresh is refused: a timestamp out of the window, no signature that recovers, no owner to be
-- read from the chain, or an owner who is not the signer.
abbrev pub IsRefused : Web → RefreshRequest → RefreshWorld → AppState → KmsError → Type 0
IsRefused w req env s e =
    let recent = in_tolerance env.now req.timestamp s.config.timestamp_tolerance_secs in
    let signed = recover_eip191_address w (refresh_message w req.timestamp) req.signature in
    ((recent ≡ false) × (e ≡ KmsError.invalid_timestamp))
    ⊎ ((recent ≡ true) × (signed ≡ err e))
    ⊎ ((recent ≡ true) × (is_ok signed ≡ true) × (env.owner ≡ err e))
    ⊎ ((recent ≡ true)
        × (signer : ℕ) × (owner : ℕ) × (signed ≡ ok signer)
        × (env.owner ≡ ok owner)
        × ((signer == owner) ≡ false)
        × (e ≡ KmsError.invalid_signature))

is_owner-IsRefused :
    (w : Web) (req : RefreshRequest) (env : RefreshWorld) (s : AppState) (e : KmsError)
    → is_owner w req env s ≡ err e
    → IsRefused w req env s e
is_owner-IsRefused w req env s e h =
    elim (Bool-cases (in_tolerance env.now req.timestamp s.config.timestamp_tolerance_secs)) [
      | inr late ↦ inl (late, ground arith)
      | inl recent ↦
          elim (Result-cases
            (recover_eip191_address w (refresh_message w req.timestamp) req.signature)) [
              | inr (f, bad) ↦ inr (inl (recent, bad ∙ ap err (ground arith)))
              | inl (signer, signed) ↦ elim (Result-cases env.owner) [
                | inr (f, unknown) ↦
                    inr (inr (inl (recent, ap is_ok signed, unknown ∙ ap err (ground arith))))
                | inl (owner, named) ↦ elim (Bool-cases (signer == owner)) [
                  | inl same ↦ absurd (ground arith)
                  | inr other ↦
                      inr (inr (inr (recent, signer, owner, signed, named, other, ground arith)))
                ]
              ]
            ]
    ]

-- What a response shows: a refusal has a reason and has changed nothing; 200 is a refresh that the owner has asked for
-- and that has gone through, and 500 one that has failed, each of them counted.
abbrev pub IsAnswer :
    (ShardState → Bytes → Option Bytes)
    → Web
    → RefreshRequest
    → RefreshWorld
    → Metrics
    → AppState
    → Result KmsError ℕ × AppState × Metrics
    → Type 0
IsAnswer seal w req env counters s (err e, s', counters') =
    IsRefused w req env s e × (s' ≡ s) × (counters' ≡ counters)
IsAnswer seal w req env counters s (ok code, s', counters') =
    IsOwners w req env s
    × (r : Result ReshareError (Unit {0})) × (trigger_refresh seal env.node_list env.prepared
          env.between env.node_list' env.session s
        ≡ (r, s'))
    × (code ≡ (if is_ok r then 200 else 500))
    × (counters' ≡ count_refresh r counters)

-- A refresh over HTTP, on every branch: it is refused, with the state and the counters as they were,
-- only for a timestamp out of the window, a signature that does not recover, an owner that the chain
-- reader does not give, or an owner who is not the signer, each with its error; otherwise the owner has
-- signed it within the window, the response and the state are those of the refresh, and the counters
-- have its outcome.
pub handle_refresh-IsAnswer :
    (seal : ShardState → Bytes → Option Bytes) (w : Web) (req : RefreshRequest) (env : RefreshWorld)
    (counters : Metrics) (s : AppState)
    → IsAnswer seal w req env counters s (handle_refresh w seal req env counters s)
unfolding handle_refresh
handle_refresh-IsAnswer seal w req env counters s = go (is_owner w req env s) refl
  where
    go :
        (r : Result KmsError (Unit {0}))
        → is_owner w req env s ≡ r
        → IsAnswer seal w req env counters s (elim r [
          | err e ↦ (err e, s, counters)
          | ok u ↦ refreshed w counters (
              trigger_refresh seal env.node_list env.prepared env.between env.node_list' env.session
                s)
        ])
    go (err e) h = (is_owner-IsRefused w req env s e h, refl, refl)
    go (ok u) h = (
      is_owner-IsOwners w req env s h,
      (trigger_refresh seal env.node_list env.prepared env.between env.node_list' env.session s).0,
      refl,
      refl,
      refl,
    )
