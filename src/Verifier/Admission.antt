-- ===== src/Verifier/Admission.antt =====
-- Whom the gate lets pass (src/verifier.rs).
use g_kms.Prelude.{
  ℕ, zero, suc, ◌+◌, ◌/◌, leb, ◌&&◌, Bool-cases, Option, ◌≡◌, ◌<◌, ◌⊎◌, inl, inr, refl, true, false,
  Option-cases, sym, List, ◌∷◌, some, none, arith, Eq, Map, lookup, ok, ◌∙◌, ap, subst,
}
use g_kms.Errors.{Refusal}
use g_kms.Time.{elapsed}
use g_kms.Verifier.{
  Answer, Outcome, CacheEntry, Gate, Call, settle, sweep, restamp_or, cached_decision,
  require_verified, ask, poll_loop, is_waiting, scan_lag_poll, has_stale_positive,
  max_verdict_staleness,
}
use g_kms.Verifier.History.{
  Event, BackedBy, BackedBy-lookup, run, last_verdict, run-Backed, sweep-Backed, verdict_at,
  last_verdict_self,
}

-- Scan's last verdict in a history is positive, and less than 24 hours old.
abbrev pub IsConfirmed {ℓ} : {K : Type ℓ} ⦃e : Eq K⦄ → ℕ → K → List (Event K) → Type 0
IsConfirmed now k es =
    (t : ℕ) × (last_verdict k es ≡ some (true, t)) × (elapsed now t < max_verdict_staleness)

-- The same, or the verdict is this event's own.
abbrev pub IsConfirmedBy {ℓ} : {K : Type ℓ} ⦃e : Eq K⦄ → Event K → List (Event K) → Type 0
IsConfirmedBy v es =
    (t : ℕ) × (last_verdict v.key (v ∷ es) ≡ some (true, t))
    × ((t ≡ v.now) ⊎ (elapsed v.written t < max_verdict_staleness))

-- What scan answered to a call: to its first fetch or to one of its polls, at the instant of its end.
abbrev pub IsFetched {ℓ} : {K : Type ℓ} → Call K → Outcome × ℕ → Type 0
IsFetched call answer = (answer ≡ call.fetched) ⊎ ((i : ℕ) × (answer ≡ call.polls i))

poll_loop-IsFetched {ℓ} :
    {K : Type ℓ} (call : Call K) (fuel deadline i : ℕ) (last answer : Outcome × ℕ)
    → IsFetched call last
    → poll_loop fuel call.polls deadline i last ≡ some answer
    → IsFetched call answer
unfolding poll_loop
poll_loop-IsFetched call zero deadline i last answer known h = ground arith
poll_loop-IsFetched call (suc fuel) deadline i last answer known h =
    elim (Bool-cases (is_waiting last.0 && leb (last.1 + scan_lag_poll) deadline)) [
      | inl again ↦
          poll_loop-IsFetched call fuel deadline (suc i) (call.polls i) answer (inr (i, refl))
            (ground arith)
      | inr done ↦ subst (IsFetched call) (ground arith) known
    ]

ask-IsFetched {ℓ} :
    {K : Type ℓ} (call : Call K) (found : Option CacheEntry) (answer : Outcome × ℕ)
    → ask call found ≡ some answer
    → IsFetched call answer
unfolding ask
ask-IsFetched call found answer h = elim (Bool-cases (has_stale_positive call.fetched.1 found)) [
  | inl stale ↦ subst (IsFetched call) (ground arith) (inl refl)
  | inr bare ↦
      poll_loop-IsFetched call (suc (call.lag_wait / scan_lag_poll))
        (call.fetched.1 + call.lag_wait) 0 call.fetched answer (inl refl) (ground arith)
]

cached_ok :
    (now : ℕ) (x : CacheEntry)
    → cached_decision now (some x) ≡ some (ok tt)
    → (x.verified ≡ true) × (elapsed now x.confirmed_at < max_verdict_staleness)
unfolding cached_decision
cached_ok now x h = ground arith

module _ {ℓ} {K : Type ℓ} ⦃e : Eq K⦄ where
  backed_verdict :
      (k : K) (es : List (Event K)) (x : CacheEntry)
      → BackedBy (last_verdict k es) x.verified x.confirmed_at
      → x.verified ≡ true
      → last_verdict k es ≡ some (true, x.confirmed_at)
  backed_verdict k es x b h = subst (λ v. BackedBy (last_verdict k es) v x.confirmed_at) h b

  cached-IsConfirmed :
      (now : ℕ) (k : K) (es : List (Event K))
      → cached_decision now (lookup k (run es)) ≡ some (ok tt)
      → IsConfirmed now k es
  unfolding cached_decision
  cached-IsConfirmed now k es h = elim (Option-cases (lookup k (run es))) [
    | inl missing ↦ ground arith
    | inr (x, found) ↦
        let ok_entry = cached_ok now x (rw found at h) in
        (
          x.confirmed_at,
          backed_verdict k es x
              (BackedBy-lookup (λ j. last_verdict j es) k (run es) (run-Backed es) found)
              ok_entry.0,
          ok_entry.1,
        )
  ]

  restamp_ok :
      (k : K) (now written : ℕ) (new : CacheEntry) (answer : Refusal) (c : Map K CacheEntry)
      → (restamp_or k now written new answer (lookup k c) c).0 ≡ ok tt
      → (x : CacheEntry) × (lookup k c ≡ some x)
        × (x.verified ≡ true)
        × (elapsed written x.confirmed_at < max_verdict_staleness)
  unfolding restamp_or
  restamp_ok k now written new answer c h = elim (Option-cases (lookup k c)) [
    | inl missing ↦ ground arith
    | inr (x, found) ↦ (x, found, ground arith, ground arith)
  ]

  restamp-IsConfirmedBy :
      (v : Event K) (es : List (Event K)) (new : CacheEntry) (answer : Refusal)
      → verdict_at v.now v.outcome ≡ none
      → (restamp_or v.key v.now v.written new answer
          (lookup v.key (sweep v.written (run es)))
          (sweep v.written (run es))).0
        ≡ ok tt
      → IsConfirmedBy v es
  restamp-IsConfirmedBy v es new answer silent h =
      let c = sweep v.written (run es) in
      let (x, found, verified, young) = restamp_ok v.key v.now v.written new answer c h in
      let backed =
        BackedBy-lookup (λ j. last_verdict j es) v.key c
          (sweep-Backed (λ j. last_verdict j es) v.written (run es) (run-Backed es)) found in
      (
        x.confirmed_at,
        last_verdict_self v es ∙ rw silent (backed_verdict v.key es x backed verified),
        inr young,
      )

  settle-IsConfirmedBy :
      (k : K) (now written : ℕ) (o : Outcome) (es : List (Event K))
      → (settle k now written o (run es)).0 ≡ ok tt
      → IsConfirmedBy (record { key = k; now = now; written = written; outcome = o }) es
  unfolding settle
  settle-IsConfirmedBy k now written none es h =
      restamp-IsConfirmedBy (record { key = k; now = now; written = written; outcome = none }) es _
        _ refl h
  settle-IsConfirmedBy k now written (some Answer.unknown) es h =
      restamp-IsConfirmedBy
        (record { key = k; now = now; written = written; outcome = some Answer.unknown }) es _ _
        refl h
  settle-IsConfirmedBy k now written (some (Answer.verdict true r)) es h = (
    now,
    last_verdict_self
        (record { key = k; now = now; written = written; outcome = some (Answer.verdict true r) })
        es,
    inl refl,
  )
  settle-IsConfirmedBy k now written (some (Answer.verdict false r)) es h = cc

  settled_event :
      (k : K) (now written : ℕ) (o : Outcome) (es : List (Event K)) (c : Map K CacheEntry)
      → settle k now written o (run es) ≡ (ok tt, c)
      → (v : Event K) × (v.key ≡ k)
        × ◌≡◌ {A = Outcome × ℕ} (v.outcome, v.now) (o, now)
        × (v.written ≡ written)
        × (c ≡ run (v ∷ es))
        × IsConfirmedBy v es
  unfolding run
  settled_event k now written o es c h = (
    record { key = k; now = now; written = written; outcome = o },
    refl,
    refl,
    refl,
    sym (ap (λ (t : Gate × Map K CacheEntry). t.1) h),
    settle-IsConfirmedBy k now written o es (ap (λ (t : Gate × Map K CacheEntry). t.0) h),
  )

  -- The gate is closed to whoever scan has not vouched for. For any history of the cache's writes,
  -- by any calls, as it stands when the call looks first, when it holds the key's lock and when it
  -- writes: if `require_verified` lets the signer pass, then scan's last verdict on the signer, at
  -- the first look or under the lock, was positive and less than 24 hours old; or it is so at the
  -- call's own write, which is the next event of the history and has what scan answered to one of the
  -- call's own fetches, at the instant of that answer, or that answer is the positive verdict itself. So a signer that was never verified is refused whatever goes wrong, a denial
  -- closes the gate until a later positive verdict, and an outage keeps nobody in for over 24 hours.
  pub require_verified-IsConfirmed :
      (call : Call K) (k : K) (es es' es'' : List (Event K)) (c : Map K CacheEntry)
      → call.while_locking (run es) ≡ run es'
      → call.while_polling (call.while_asking (run es')) ≡ run es''
      → require_verified call k (run es) ≡ some (ok tt, c)
      → IsConfirmed call.started k es
        ⊎ (IsConfirmed call.locked k es'
            ⊎ ((v : Event K) × (v.key ≡ k)
                × IsFetched call (v.outcome, v.now)
                × (v.written ≡ call.written)
                × (c ≡ run (v ∷ es''))
                × IsConfirmedBy v es''))
  unfolding require_verified
  require_verified-IsConfirmed call k es es' es'' c locking writing h =
      let c1 = call.while_locking (run es) in
      elim (Option-cases (cached_decision call.started (lookup k (run es)))) [
        | inr (d, q) ↦ inl (cached-IsConfirmed call.started k es (ground arith))
        | inl q ↦ elim (Option-cases (cached_decision call.locked (lookup k c1))) [
          | inr (d, q') ↦
              let hit : cached_decision call.locked (lookup k c1) ≡ some (ok tt) = ground arith in
              inr (inl (cached-IsConfirmed call.locked k es' (rw locking at hit)))
          | inl q' ↦ elim (Option-cases (ask call (lookup k (call.while_asking c1)))) [
            | inl q'' ↦ absurd (ground arith)
            | inr ((o, now), q'') ↦
                let c3 = call.while_polling (call.while_asking c1) in
                let same : c3 ≡ run es'' =
                  ap (λ x. call.while_polling (call.while_asking x)) locking ∙ writing in
                let answered : settle k now call.written o c3 ≡ (ok tt, c) = ground arith in
                let (v, key, said, at, cached, confirmed) =
                  settled_event k now call.written o es'' c (rw same at answered) in
                let asked = ask-IsFetched call (lookup k (call.while_asking c1)) (o, now) q'' in
                inr (inr (v, key, subst (IsFetched call) (sym said) asked, at, cached, confirmed))
          ]
        ]
      ]
