-- ===== src/Verifier/Damping.antt =====
-- What the cache answers between two questions to scan (src/verifier.rs).
use g_kms.Prelude.{
  ℕ, ◌+◌, ◌≡◌, ◌≤◌, ◌<◌, inl, inr, true, false, Bool-cases, Option-cases, lookup-insert_self, some,
  none, arith, Eq, Map, lookup, ok, err,
}
use g_kms.Errors.{Refusal}
use g_kms.Time.{elapsed}
use g_kms.Verifier.{
  Answer, Outcome, CacheEntry, settle, sweep, restamp_or, is_stale_positive, cached_decision,
  refused, scan_lag_damp, negative_ttl, max_verdict_staleness, is_waiting, positive_refresh,
}

refused-decision :
    (now t damp : ℕ) (r : Refusal)
    → now ≤ t
    → t < now + damp
    → cached_decision t (some (refused now r damp)) ≡ some (err r)
unfolding cached_decision
refused-decision now t damp r past h = ground arith

module _ {ℓ} {K : Type ℓ} ⦃e : Eq K⦄ where
  restamp_or-damped :
      (k : K) (now written t damp : ℕ) (r answer x : Refusal) (c : Map K CacheEntry)
      → (restamp_or k now written (refused now r damp) answer (lookup k c) c).0 ≡ err x
      → now ≤ t
      → t < now + damp
      → cached_decision t
          (lookup k (restamp_or k now written (refused now r damp) answer (lookup k c) c).1)
        ≡ some (err r)
  unfolding restamp_or
  restamp_or-damped k now written t damp r answer x c h past soon =
      let hit = refused-decision now t damp r past soon in
      elim (Option-cases (lookup k c)) [
        | inl q ↦ rw q (rw lookup-insert_self hit)
        | inr (y, q) ↦ elim (Bool-cases (is_stale_positive written y)) [
          | inl stale ↦ absurd (ground arith)
          | inr not_stale ↦ rw q (rw not_stale (rw lookup-insert_self hit))
        ]
      ]

  -- Whoever was refused is refused from the cache, with no question to scan, for three seconds at
  -- least, whatever the refusal was for (a denial, scan behind the chain, or scan unreachable).
  settle-damped :
      (k : K) (now written t : ℕ) (o : Outcome) (x : Refusal) (c : Map K CacheEntry)
      → (settle k now written o c).0 ≡ err x
      → now ≤ t
      → t < now + scan_lag_damp
      → (y : Refusal) × (cached_decision t (lookup k (settle k now written o c).1) ≡ some (err y))
  unfolding settle
  settle-damped k now written t none x c h past soon = (
    _,
    restamp_or-damped k now written t negative_ttl Refusal.recently_unreachable _ x
        (sweep written c) h past (omega arith),
  )
  settle-damped k now written t (some Answer.unknown) x c h past soon = (
    _,
    restamp_or-damped k now written t scan_lag_damp Refusal.not_registered _ x (sweep written c) h
        past soon,
  )
  settle-damped k now written t (some (Answer.verdict true r)) x c h past soon = cc
  settle-damped k now written t (some (Answer.verdict false r)) x c h past soon = (
    Refusal.recently_denied r,
    rw lookup-insert_self
        (refused-decision now t negative_ttl (Refusal.recently_denied r) past (omega arith)),
  )

  -- While scan cannot vouch (it fails, or does not know the signer), a signer whose positive verdict
  -- was confirmed less than 24 hours before the write passes, the confirmation keeps its date, and
  -- scan is not asked again for an hour, or until the confirmation is 24 hours old.
  settle-serves_stale :
      (k : K) (now written t : ℕ) (o : Outcome) (x : CacheEntry) (c : Map K CacheEntry)
      → is_waiting o ≡ true
      → lookup k (sweep written c) ≡ some x
      → x.verified ≡ true
      → elapsed written x.confirmed_at < max_verdict_staleness
      → t < now + positive_refresh
      → elapsed t x.confirmed_at < max_verdict_staleness
      → let (gate, c') = settle k now written o c in
        (gate ≡ ok tt)
        × (lookup k c' ≡ some (record x { stamped_at = now }))
        × (cached_decision t (lookup k c') ≡ some (ok tt))
  unfolding settle restamp_or cached_decision
  settle-serves_stale k now written t none x c w found v young soon later =
      let self = lookup-insert_self k (record x { stamped_at = now }) (sweep written c) in
      (ground arith, ground arith, ground arith)
  settle-serves_stale k now written t (some Answer.unknown) x c w found v young soon later =
      let self = lookup-insert_self k (record x { stamped_at = now }) (sweep written c) in
      (ground arith, ground arith, ground arith)
  settle-serves_stale k now written t (some (Answer.verdict b r)) x c w found v young soon later =
      cc
