-- ===== src/Verifier.antt =====
-- src/verifier.rs: the attestation gate's verdict cache and `require_verified`. The key (app_id,
-- signer) is any type with a decided equality; scan's answers and the instants are a call's own.
-- The per-key lock is not relied on: other tasks may write the cache at every wait.
pub mod Polling
pub mod History
pub mod Admission
pub mod Damping
pub mod Pinning
mod Tests
use g_kms.Prelude.{
  ℕ, suc, zero, ◌+◌, ◌/◌, Bool, true, false, not, ◌&&◌, ltb, leb, if◌then◌else◌, filter, length,
  Option, none, some, Map, lookup, insert, Eq, Bytes, Result, ok, err,
}
use g_kms.Errors.{Refusal}
use g_kms.Time.{seconds, elapsed}

abbrev pub positive_refresh : ℕ
positive_refresh = seconds 3600

abbrev pub negative_ttl : ℕ
negative_ttl = seconds 30

abbrev pub scan_lag_wait : ℕ
scan_lag_wait = seconds 12

abbrev pub scan_lag_poll : ℕ
scan_lag_poll = seconds 3

abbrev pub scan_lag_damp : ℕ
scan_lag_damp = seconds 3

abbrev pub max_verdict_staleness : ℕ
max_verdict_staleness = seconds 86400

pub record CacheEntry : Type 0 where
  pub verified : Bool
  pub refusal : Refusal
  pub damp : ℕ
  pub stamped_at : ℕ
  pub confirmed_at : ℕ

pub data Answer : Type 0 where
  verdict : Bool → Bytes → Answer
  unknown : Answer

-- What a fetch ends with: `none` is an error, such as a timeout or another HTTP status.
abbrev pub Outcome : Type 0
Outcome = Option Answer

-- `Verifier::fetch` on scan's HTTP status, and the body as it parses.
unfoldable pub read_response : ℕ → Option (Bool × Bytes) → Outcome
read_response code body =
    if leb 200 code && ltb code 300
    then elim body [ none ↦ none | some (verified, reason) ↦ some (Answer.verdict verified reason) ]
    else (if leb 404 code && leb code 404 then some Answer.unknown else none)

abbrev pub Gate : Type 0
Gate = Result Refusal (Unit {0})

-- A positive that was confirmed within the staleness cap.
abbrev pub is_stale_positive : ℕ → CacheEntry → Bool
is_stale_positive now e = e.verified && ltb (elapsed now e.confirmed_at) max_verdict_staleness

-- `cached_decision`, for the entry that is found.
unfoldable pub cached_decision : ℕ → Option CacheEntry → Option Gate
cached_decision now none = none
cached_decision now (some e) =
    if e.verified
      && (ltb (elapsed now e.stamped_at) positive_refresh
          && ltb (elapsed now e.confirmed_at) max_verdict_staleness)
    then some (ok tt)
    else (if not e.verified && ltb (elapsed now e.stamped_at) e.damp
        then some (err e.refusal)
        else none)

unfoldable pub has_stale_positive : ℕ → Option CacheEntry → Bool
has_stale_positive now none = false
has_stale_positive now (some e) = is_stale_positive now e

-- `matches!(outcome, Ok(Answer::Unknown) | Err(_))`.
abbrev pub is_waiting : Outcome → Bool
is_waiting (some (Answer.verdict b r)) = false
is_waiting (some Answer.unknown) = true
is_waiting none = true

-- The wait for scan: `polls i` is the i-th further fetch's outcome with the instant of its end.
-- `none` means that the fuel ran out.
unfoldable pub poll_loop : ℕ → (ℕ → Outcome × ℕ) → ℕ → ℕ → Outcome × ℕ → Option (Outcome × ℕ)
poll_loop zero polls deadline i last = none
poll_loop (suc fuel) polls deadline i last =
    let rest = poll_loop fuel polls deadline (suc i) (polls i) in
    if is_waiting last.0 && leb (last.1 + scan_lag_poll) deadline then rest else some last

abbrev pub positive : ℕ → CacheEntry
positive now = record {
  verified = true;
  refusal = Refusal.empty;
  damp = 0;
  stamped_at = now;
  confirmed_at = now;
}

abbrev pub refused : ℕ → Refusal → ℕ → CacheEntry
refused now r damp = record {
  verified = false;
  refusal = r;
  damp = damp;
  stamped_at = now;
  confirmed_at = now;
}

-- One call: its instants, the first fetch, the further ones, and what the other tasks do.
pub record Call {ℓ} (K : Type ℓ) : Type ℓ where
  pub lag_wait : ℕ
  pub started : ℕ
  pub while_locking : Map K CacheEntry → Map K CacheEntry
  pub locked : ℕ
  pub fetched : Outcome × ℕ
  pub polls : ℕ → Outcome × ℕ
  pub while_asking : Map K CacheEntry → Map K CacheEntry
  pub while_polling : Map K CacheEntry → Map K CacheEntry
  pub written : ℕ

-- The fetches of a call: only a signer with nothing to fall back on waits for scan.
unfoldable pub ask {ℓ} : {K : Type ℓ} → Call K → Option CacheEntry → Option (Outcome × ℕ)
unfolding has_stale_positive
ask call found =
    let (outcome, now) = call.fetched in
    let waited =
      poll_loop (suc (call.lag_wait / scan_lag_poll)) call.polls (now + call.lag_wait) 0
        (outcome, now) in
    if has_stale_positive now found then some (outcome, now) else waited

module _ {ℓ} {K : Type ℓ} ⦃e : Eq K⦄ where
  -- Past 4096 entries, those are dropped whose stamp is older than every TTL.
  unfoldable pub sweep : ℕ → Map K CacheEntry → Map K CacheEntry
  sweep written c =
      if ltb 4096 (length c)
      then filter (λ t. ltb (elapsed written t.1.stamped_at) max_verdict_staleness) c
      else c

  -- `restamp_stale`, and what is inserted and answered where there is nothing to restamp.
  unfoldable pub restamp_or :
      K
      → ℕ
      → ℕ
      → CacheEntry
      → Refusal
      → Option CacheEntry
      → Map K CacheEntry
      → Gate × Map K CacheEntry
  restamp_or k now written new answer none c = (err answer, insert k new c)
  restamp_or k now written new answer (some x) c =
      if is_stale_positive written x
      then (ok tt, insert k (record x { stamped_at = now }) c)
      else (err answer, insert k new c)

  abbrev pub record_outcome : K → ℕ → ℕ → Outcome → Map K CacheEntry → Gate × Map K CacheEntry
  record_outcome k now written (some (Answer.verdict true reason)) c =
      (ok tt, insert k (positive now) c)
  record_outcome k now written (some (Answer.verdict false reason)) c = (
    err (Refusal.denied reason),
    insert k (refused now (Refusal.recently_denied reason) negative_ttl) c,
  )
  record_outcome k now written (some Answer.unknown) c =
      restamp_or k now written (refused now Refusal.not_registered scan_lag_damp)
        Refusal.not_registered (lookup k c) c
  record_outcome k now written none c =
      restamp_or k now written (refused now Refusal.recently_unreachable negative_ttl)
        Refusal.unreachable (lookup k c) c

  -- The section of `require_verified` under the cache's write lock.
  unfoldable pub settle : K → ℕ → ℕ → Outcome → Map K CacheEntry → Gate × Map K CacheEntry
  unfolding sweep restamp_or
  settle k now written outcome c = record_outcome k now written outcome (sweep written c)

  abbrev pub after_ask :
      Call K → K → Option (Outcome × ℕ) → Map K CacheEntry → Option (Gate × Map K CacheEntry)
  after_ask call k none c = none
  after_ask call k (some (outcome, now)) c =
      some (settle k now call.written outcome (call.while_polling c))

  abbrev pub under_lock :
      Call K → K → Option Gate → Map K CacheEntry → Option (Gate × Map K CacheEntry)
  under_lock call k (some d) c = some (d, c)
  under_lock call k none c =
      let c' = call.while_asking c in after_ask call k (ask call (lookup k c')) c'

  abbrev pub first_look :
      Call K → K → Option Gate → Map K CacheEntry → Option (Gate × Map K CacheEntry)
  first_look call k (some d) c = some (d, c)
  first_look call k none c =
      let c' = call.while_locking c in
      under_lock call k (cached_decision call.locked (lookup k c')) c'

  -- `Verifier::require_verified`; `none` means that the wait for scan ran out of fuel.
  unfoldable pub require_verified : Call K → K → Map K CacheEntry → Option (Gate × Map K CacheEntry)
  unfolding ask
  require_verified call k c = first_look call k (cached_decision call.started (lookup k c)) c
