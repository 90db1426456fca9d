-- ===== src/Verifier/Polling.antt =====
-- The length of the wait for scan (src/verifier.rs, `require_verified`).
use g_kms.Prelude.{
  ℕ, zero, suc, ◌+◌, ◌*◌, ◌/◌, ◌≡◌, ◌≤◌, ◌<◌, Bool-cases, inl, inr, Option, some, arith, Eq, Map,
  lookup, Option-cases, leb,
}
use g_kms.Verifier.{
  Outcome, CacheEntry, Gate, Call, scan_lag_poll, is_waiting, poll_loop, ask, has_stale_positive,
  require_verified, cached_decision, settle,
}

-- Each further fetch ends after a sleep of `SCAN_LAG_POLL`.
pub record Sleeps (now : ℕ) (polls : ℕ → Outcome × ℕ) : Type 0 where
  pub first : now + scan_lag_poll ≤ (polls 0).1
  pub next : (j : ℕ) → (polls j).1 + scan_lag_poll ≤ (polls (suc j)).1

poll_loop_total :
    (fuel : ℕ) (polls : ℕ → Outcome × ℕ) (deadline i : ℕ) (last : Outcome × ℕ)
    → last.1 + scan_lag_poll ≤ (polls i).1
    → ((j : ℕ) → (polls j).1 + scan_lag_poll ≤ (polls (suc j)).1)
    → deadline < last.1 + scan_lag_poll * suc fuel
    → (r : Outcome × ℕ) × (poll_loop (suc fuel) polls deadline i last ≡ some r)
unfolding poll_loop
poll_loop_total zero polls deadline i last first sleeps enough =
    elim (Bool-cases (leb (last.1 + scan_lag_poll) deadline)) [
      | inr late ↦ (last, ground arith)
      | inl early ↦ absurd (ground arith)
    ]
poll_loop_total (suc fuel) polls deadline i last first sleeps enough =
    elim (Bool-cases (is_waiting last.0)) [
      | inr done ↦ (last, ground arith)
      | inl waiting ↦ elim (Bool-cases (leb (last.1 + scan_lag_poll) deadline)) [
        | inr late ↦ (last, ground arith)
        | inl early ↦
            let enough' : deadline < (polls i).1 + scan_lag_poll * suc fuel = ground arith in
            let ih =
              poll_loop_total fuel polls deadline (suc i) (polls i) (sleeps i) sleeps enough' in
            (ih.0, ground arith)
      ]
    ]

module _ {ℓ} {K : Type ℓ} where
  ask_total :
      (call : Call K) (found : Option CacheEntry)
      → Sleeps call.fetched.1 call.polls
      → (r : Outcome × ℕ) × (ask call found ≡ some r)
  unfolding ask
  ask_total call found s = elim (Bool-cases (has_stale_positive call.fetched.1 found)) [
    | inl stale ↦ (call.fetched, ground arith)
    | inr nothing ↦
        let waited =
          poll_loop_total (call.lag_wait / scan_lag_poll) call.polls
            (call.fetched.1 + call.lag_wait) 0 call.fetched s.first s.next (omega arith) in
        (waited.0, ground arith)
  ]

module _ {ℓ} {K : Type ℓ} ⦃e : Eq K⦄ where
  -- `require_verified` always answers: with each further fetch ending after its sleep, the wait for
  -- scan is over after at most `lag_wait / SCAN_LAG_POLL` of them, whatever scan says.
  pub require_verified_total :
      (call : Call K) (k : K) (c : Map K CacheEntry)
      → Sleeps call.fetched.1 call.polls
      → (r : Gate × Map K CacheEntry) × (require_verified call k c ≡ some r)
  unfolding require_verified
  require_verified_total call k c s =
      let c1 = call.while_locking c in
      let c2 = call.while_asking c1 in
      elim (Option-cases (cached_decision call.started (lookup k c))) [
        | inr (d, h) ↦ ((d, c), ground arith)
        | inl h ↦ elim (Option-cases (cached_decision call.locked (lookup k c1))) [
          | inr (d, h') ↦ ((d, c1), ground arith)
          | inl h' ↦
              let asked = ask_total call (lookup k c2) s in
              (
                settle k asked.0.1 call.written asked.0.0 (call.while_polling c2),
                rw h (rw h' (rw (asked.1))),
              )
        ]
      ]
