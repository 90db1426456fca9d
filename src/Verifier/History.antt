-- ===== src/Verifier/History.antt =====
-- Histories of the verdict cache: every write of src/verifier.rs is a `settle`, whatever call it is
-- part of, and the reads leave the cache alone.
use g_kms.Prelude.{
  ℕ, ◌≡◌, ◌≢◌, Bool, true, false, Bool-cases, Option-cases, inl, inr, if◌then◌else◌, All,
  All-filter, All-erase, All-lookup, List, [], ◌∷◌, Option, some, none, arith, Eq, ◌=?◌, Map,
  lookup, insert, subst, sym, ltb, length,
}
use g_kms.Errors.{Refusal}
use g_kms.Verifier.{
  Answer, Outcome, CacheEntry, settle, sweep, restamp_or, record_outcome, is_stale_positive,
  refused, positive, negative_ttl,
}

-- One write: the key, the instants `now` and of the write, and what scan was taken to say.
pub record Event {ℓ} (K : Type ℓ) : Type ℓ where
  pub key : K
  pub now : ℕ
  pub written : ℕ
  pub outcome : Outcome

-- The verdict that an outcome brings, with its instant.
abbrev pub verdict_at : ℕ → Outcome → Option (Bool × ℕ)
verdict_at now none = none
verdict_at now (some Answer.unknown) = none
verdict_at now (some (Answer.verdict b reason)) = some (b, now)

abbrev pub or_else {ℓ} : {A : Type ℓ} → Option A → Option A → Option A
or_else (some a) b = some a
or_else none b = b

-- A positive entry is confirmed by the verdict `l`; a refusal claims nothing.
abbrev pub BackedBy : Option (Bool × ℕ) → Bool → ℕ → Type 0
BackedBy l true t = l ≡ some (true, t)
BackedBy l false t = Unit

module _ {ℓ} {K : Type ℓ} ⦃e : Eq K⦄ where
  -- The cache after a history, newest event first.
  unfoldable pub run : List (Event K) → Map K CacheEntry
  run [] = []
  run (v ∷ vs) = (settle v.key v.now v.written v.outcome (run vs)).1

  -- Scan's last verdict on a key in a history.
  unfoldable pub last_verdict : K → List (Event K) → Option (Bool × ℕ)
  last_verdict k [] = none
  last_verdict k (v ∷ vs) =
      if v.key =? k
      then or_else (verdict_at v.now v.outcome) (last_verdict k vs)
      else last_verdict k vs

  abbrev pub Backed : (K → Option (Bool × ℕ)) → Map K CacheEntry → Type 0
  Backed l c = All (λ t. BackedBy (l t.0) t.1.verified t.1.confirmed_at) c

  pub BackedBy-lookup :
      (l : K → Option (Bool × ℕ)) (k : K) (c : Map K CacheEntry) {x : CacheEntry}
      → Backed l c
      → lookup k c ≡ some x
      → BackedBy (l k) x.verified x.confirmed_at
  BackedBy-lookup l k c b h = All-lookup (λ j y. BackedBy (l j) y.verified y.confirmed_at) k c b h

  -- A write at `k` keeps the other entries backed, if the verdicts on other keys stay.
  Backed-insert :
      (l l' : K → Option (Bool × ℕ)) (k : K) (x : CacheEntry) (c : Map K CacheEntry)
      → ((j : K) → k ≢ j → l' j ≡ l j)
      → BackedBy (l' k) x.verified x.confirmed_at
      → Backed l c
      → Backed l' (insert k x c)
  unfolding insert
  Backed-insert l l' k x c same h b = (
    h,
    All-erase _ _ k c
        (λ j y ne p. subst (λ o. BackedBy o y.verified y.confirmed_at) (sym (same j ne)) p) b,
  )

  pub sweep-Backed :
      (l : K → Option (Bool × ℕ)) (written : ℕ) (c : Map K CacheEntry)
      → Backed l c
      → Backed l (sweep written c)
  unfolding sweep
  sweep-Backed l written c b = elim (Bool-cases (ltb 4096 (length c))) [
    | inl large ↦ rw large (All-filter _ _ c b)
    | inr small ↦ rw small b
  ]

  restamp_or-Backed :
      (l l' : K → Option (Bool × ℕ)) (k : K) (now written : ℕ) (r answer : Refusal) (damp : ℕ)
      (c : Map K CacheEntry)
      → ((j : K) → k ≢ j → l' j ≡ l j)
      → l' k ≡ l k
      → Backed l c
      → Backed l' (restamp_or k now written (refused now r damp) answer (lookup k c) c).1
  unfolding restamp_or
  restamp_or-Backed l l' k now written r answer damp c same new b =
      let new_refusal = Backed-insert l l' k (refused now r damp) c same tt b in
      elim (Option-cases (lookup k c)) [
        | inl h ↦ rw h new_refusal
        | inr (x, h) ↦ elim (Bool-cases (is_stale_positive written x)) [
          | inl stale ↦
              let backed =
                subst (λ o. BackedBy o x.verified x.confirmed_at) (sym new)
                  (BackedBy-lookup l k c b h) in
              rw h (rw stale (Backed-insert l l' k (record x { stamped_at = now }) c same backed b))
          | inr not_stale ↦ rw h (rw not_stale new_refusal)
        ]
      ]

  record_outcome-Backed :
      (l l' : K → Option (Bool × ℕ)) (k : K) (now written : ℕ) (o : Outcome) (c : Map K CacheEntry)
      → ((j : K) → k ≢ j → l' j ≡ l j)
      → l' k ≡ or_else (verdict_at now o) (l k)
      → Backed l c
      → Backed l' (record_outcome k now written o c).1
  record_outcome-Backed l l' k now written none c same new b =
      restamp_or-Backed l l' k now written _ _ _ c same new b
  record_outcome-Backed l l' k now written (some Answer.unknown) c same new b =
      restamp_or-Backed l l' k now written _ _ _ c same new b
  record_outcome-Backed l l' k now written (some (Answer.verdict true r)) c same new b =
      Backed-insert l l' k (positive now) c same new b
  record_outcome-Backed l l' k now written (some (Answer.verdict false r)) c same new b =
      Backed-insert l l' k (refused now (Refusal.recently_denied r) negative_ttl) c same tt b

  last_verdict-ne :
      (v : Event K) (vs : List (Event K)) (j : K)
      → v.key ≢ j
      → last_verdict j (v ∷ vs) ≡ last_verdict j vs
  unfolding last_verdict
  last_verdict-ne v vs j ne = ground (arith, e.beq_iff v.key j)

  pub last_verdict_self :
      (v : Event K) (vs : List (Event K))
      → last_verdict v.key (v ∷ vs) ≡ or_else (verdict_at v.now v.outcome) (last_verdict v.key vs)
  unfolding last_verdict
  last_verdict_self v vs = ground (arith, e.beq_iff v.key v.key)

  -- After any history, every positive entry carries scan's last verdict on its key.
  pub run-Backed : (es : List (Event K)) → Backed (λ k. last_verdict k es) (run es)
  unfolding run settle
  run-Backed [] = tt
  run-Backed (v ∷ vs) =
      record_outcome-Backed (λ k. last_verdict k vs) (λ k. last_verdict k (v ∷ vs)) v.key v.now
        v.written v.outcome (sweep v.written (run vs)) (λ j ne. last_verdict-ne v vs j ne)
        (last_verdict_self v vs)
        (sweep-Backed (λ k. last_verdict k vs) v.written (run vs) (run-Backed vs))
