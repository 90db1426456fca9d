-- ===== src/Derive/Enough.antt =====
-- How many good answers a derivation needs (src/grpc.rs, `collect_and_dprf`).
use g_kms.Prelude.{
  ℕ, ◌≤◌, ◌<◌, ◌≡◌, refl, Bool, true, false, Bool-cases, inl, inr, if◌then◌else◌, ◌==◌, ==_iff,
  is_some, mem, Distinct, Subset, All, length, leb, length-Subset, mem-append, ◌⊎◌, ◌||◌, ◌&&◌, not,
  any, List, [], ◌∷◌, ◌++◌, Option, none, some, Option-cases, lookup, nat_eq, Bytes, arith,
}
use g_kms.Derive.{
  Reply, Collected, at_epoch, add_partial, discard, take_reply, collect, nothing_yet, gather,
}
use g_kms.Derive.Step.{Matched-length, at_epoch-insert}
use g_kms.Derive.Collect.{IsGenuineAs, IsGenuine, gather-IsSound}

-- `id` answered at epoch `e` with something that parses, or with something that does not.
abbrev pub delivers : {P : Type 0} → (Bytes → Option P) → ℕ → ℕ → Reply → Bool
delivers parse e id Reply.failed = false
delivers parse e id (Reply.answered idx bytes epoch) =
    idx == id && (epoch == e && is_some (parse bytes))

abbrev pub garbles : {P : Type 0} → (Bytes → Option P) → ℕ → ℕ → Reply → Bool
garbles parse e id Reply.failed = false
garbles parse e id (Reply.answered idx bytes epoch) =
    idx == id && (epoch == e && not (is_some (parse bytes)))

module _ {P : Type 0} (e id : ℕ) where
  -- The index has been seen at the epoch exactly if it has contributed.
  abbrev IsTracked : Collected P → Type 0
  IsTracked c = mem id (at_epoch e c.seen) ≡ mem id (at_epoch e c.contributors)

  abbrev contributed : Collected P → Bool
  contributed c = mem id (at_epoch e c.contributors)

  add_partial-tracks :
      (threshold idx epoch : ℕ) (p : P) (c : Collected P)
      → IsTracked c
      → IsTracked (add_partial threshold idx epoch p c)
        × (contributed (add_partial threshold idx epoch p c)
            ≡ (if epoch == e then idx == id || contributed c else contributed c))
  unfolding add_partial
  add_partial-tracks threshold idx epoch p c t = elim (Bool-cases (epoch == e)) [
    | inr other ↦
        (rw at_epoch-insert (rw at_epoch-insert (rw other t)), rw at_epoch-insert (rw other))
    | inl same ↦
        let eq = (==_iff epoch e).0 same in
        (
          rw at_epoch-insert (rw at_epoch-insert (rw same (rw eq (rw mem-append (ground arith))))),
          rw at_epoch-insert (rw same (rw eq (rw mem-append (ground arith)))),
        )
  ]

  discard-tracks :
      (idx epoch : ℕ) (c : Collected P)
      → (idx == id && epoch == e) ≡ false
      → IsTracked c
      → IsTracked (discard idx epoch c)
  unfolding discard
  discard-tracks idx epoch c n t = elim (Bool-cases (epoch == e)) [
    | inr other ↦ rw at_epoch-insert (rw other t)
    | inl same ↦ rw at_epoch-insert (rw same (rw ((==_iff epoch e).0 same) (ground arith)))
  ]

  module _ (parse : Bytes → Option P) (threshold : ℕ) where
    take_reply-tracks :
        (r : Reply) (c : Collected P)
        → garbles parse e id r ≡ false
        → IsTracked c
        → IsTracked (take_reply parse threshold r c)
          × (contributed (take_reply parse threshold r c)
              ≡ (delivers parse e id r || contributed c))
    unfolding take_reply
    take_reply-tracks Reply.failed c g t = (t, refl)
    take_reply-tracks (Reply.answered idx bytes epoch) c g t =
        elim (Bool-cases (mem idx (at_epoch epoch c.seen))) [
          | inl old ↦ (rw old t, ground arith)
          | inr new ↦ elim (Option-cases (parse bytes)) [
            | inl bad ↦
                (rw new (rw bad (discard-tracks idx epoch c (ground arith) t)), ground arith)
            | inr (p, good) ↦
                let step = add_partial-tracks threshold idx epoch p c t in
                (rw new (rw good step.0), rw new (rw good (ground (arith, step.1))))
          ]
        ]

    collect-tracks :
        (rs : List Reply) (c : Collected P)
        → any (garbles parse e id) rs ≡ false
        → IsTracked c
        → is_some (collect parse threshold rs c).ready ≡ false
        → contributed (collect parse threshold rs c)
          ≡ (any (delivers parse e id) rs || contributed c)
    unfolding collect
    collect-tracks [] c g t h = refl
    collect-tracks (r ∷ rs) c g t h = elim (Bool-cases (is_some c.ready)) [
      | inl done ↦ absurd (ground arith)
      | inr more ↦
          let step = take_reply-tracks r c (ground arith) t in
          let short : is_some (collect parse threshold rs (take_reply parse threshold r c)).ready
              ≡ false =
            rw more at h in
          let rest =
            collect-tracks rs (take_reply parse threshold r c) (ground arith) step.0 short in
          rw more (ground (arith, rest, step.1))
    ]

-- While no epoch is ready, the bucket is below the threshold.
abbrev IsShort : {P : Type 0} → ℕ → ℕ → Collected P → Type 0
IsShort threshold e c = (is_some c.ready ≡ true) ⊎ (length (at_epoch e c.buckets) < threshold)

module _ {P : Type 0} (parse : Bytes → Option P) (threshold e : ℕ) where
  add_partial-IsShort :
      (idx epoch : ℕ) (p : P) (c : Collected P)
      → (is_some (add_partial threshold idx epoch p c).ready ≡ false
          → length (at_epoch e c.buckets) < threshold)
      → IsShort threshold e (add_partial threshold idx epoch p c)
  unfolding add_partial
  add_partial-IsShort idx epoch p c s =
      let bucket = at_epoch epoch c.buckets ++ p ∷ [] in
      elim (Bool-cases (leb threshold (length bucket))) [
        | inl full ↦ inl (rw full)
        | inr short ↦ elim (Bool-cases (epoch == e)) [
          | inl same ↦ inr (rw at_epoch-insert (rw same (ground arith)))
          | inr other ↦ elim (Bool-cases (is_some c.ready)) [
            | inl ready ↦ inl (rw short ready)
            | inr unready ↦ inr (rw at_epoch-insert (rw other (s (rw short unready))))
          ]
        ]
      ]

  take_reply-IsShort :
      (r : Reply) (c : Collected P)
      → is_some c.ready ≡ false
      → IsShort threshold e c
      → IsShort threshold e (take_reply parse threshold r c)
  unfolding take_reply discard
  take_reply-IsShort Reply.failed c n s = s
  take_reply-IsShort (Reply.answered idx bytes epoch) c n s =
      elim (Bool-cases (mem idx (at_epoch epoch c.seen))) [
        | inl old ↦ rw old s
        | inr new ↦ elim (Option-cases (parse bytes)) [
          | inl bad ↦ rw new (rw bad s)
          | inr (p, good) ↦ rw new (rw good (add_partial-IsShort idx epoch p c (λ h. ground arith)))
        ]
      ]

  collect-IsShort :
      (rs : List Reply) (c : Collected P)
      → IsShort threshold e c
      → IsShort threshold e (collect parse threshold rs c)
  unfolding collect
  collect-IsShort [] c s = s
  collect-IsShort (r ∷ rs) c s = elim (Bool-cases (is_some c.ready)) [
    | inl done ↦ rw done s
    | inr more ↦
        rw more
          (collect-IsShort rs (take_reply parse threshold r c) (take_reply-IsShort r c more s))
  ]

abbrev pub Trivial : {P : Type 0} → ℕ → ℕ → P → Type 0
Trivial e i p = Unit

pub one-Trivial : {P : Type 0} (epoch idx : ℕ) (o : Option P) → IsGenuineAs Trivial epoch idx o
one-Trivial epoch idx none = tt
one-Trivial epoch idx (some p) = tt

pub All-Trivial :
    {P : Type 0} (parse : Bytes → Option P) (rs : List Reply) → All (IsGenuine Trivial parse) rs
All-Trivial parse [] = tt
All-Trivial parse (Reply.failed ∷ rs) = (tt, All-Trivial parse rs)
All-Trivial parse (Reply.answered idx bytes epoch ∷ rs) =
    (one-Trivial epoch idx (parse bytes), All-Trivial parse rs)

-- The index is this node's own at the epoch, or a peer delivers for it.
abbrev pub serves : {P : Type 0} → (Bytes → Option P) → ℕ → ℕ → List Reply → ℕ → ℕ → Bool
serves parse idx epoch rs e id = any (delivers parse e id) rs || (idx == id && epoch == e)

module _ {P : Type 0} (parse : Bytes → Option P) (threshold idx epoch : ℕ) (own : P)
    (rs : List Reply) where
  gather-contributed :
      (e id : ℕ)
      → serves parse idx epoch rs e id ≡ true
      → any (garbles parse e id) rs ≡ false
      → is_some (gather parse threshold idx epoch own rs).ready ≡ false
      → mem id (at_epoch e (gather parse threshold idx epoch own rs).contributors) ≡ true
  unfolding gather lookup
  gather-contributed e id s g h =
      let first = add_partial-tracks e id threshold idx epoch own nothing_yet refl in
      let all =
        collect-tracks e id parse threshold rs (add_partial threshold idx epoch own nothing_yet) g
          first.0 h in
      ground (arith, all, first.1)

  gather-Subset :
      (e : ℕ) (ids : List ℕ)
      → All (λ id. serves parse idx epoch rs e id ≡ true) ids
      → All (λ id. any (garbles parse e id) rs ≡ false) ids
      → is_some (gather parse threshold idx epoch own rs).ready ≡ false
      → Subset ids (at_epoch e (gather parse threshold idx epoch own rs).contributors)
  gather-Subset e [] s g h = tt
  gather-Subset e (id ∷ ids) s g h =
      (gather-contributed e id s.0 g.0 h, gather-Subset e ids s.1 g.1 h)

  gather-IsShort : (e : ℕ) → IsShort threshold e (gather parse threshold idx epoch own rs)
  unfolding gather lookup add_partial
  gather-IsShort e =
      collect-IsShort parse threshold e rs (add_partial threshold idx epoch own nothing_yet)
        (add_partial-IsShort parse threshold e idx epoch own nothing_yet (λ h. ground arith))

  -- Whatever else arrives, and in whatever order, the collection ends with an epoch that is ready if
  -- at some epoch at least as many distinct indices serve as the threshold says: this node's own, or
  -- indices for which a peer delivers a partial that parses and none delivers one that does not.
  pub gather-ready :
      (e : ℕ) (ids : List ℕ)
      → Distinct ids
      → threshold ≤ length ids
      → All (λ id. serves parse idx epoch rs e id ≡ true) ids
      → All (λ id. any (garbles parse e id) rs ≡ false) ids
      → (e' : ℕ) × ((gather parse threshold idx epoch own rs).ready ≡ some e')
  gather-ready e ids d enough s g =
      let c = gather parse threshold idx epoch own rs in
      elim (Option-cases c.ready) [
        | inr found ↦ found
        | inl nothing ↦
            let unready : is_some c.ready ≡ false = rw nothing in
            let count =
              length-Subset ids (at_epoch e c.contributors) d (gather-Subset e ids s g unready) in
            let sound =
              gather-IsSound parse threshold Trivial e idx epoch own rs tt (All-Trivial parse rs) in
            let paired =
              Matched-length (Trivial e) (at_epoch e c.contributors) (at_epoch e c.buckets)
                sound.matched in
            elim (gather-IsShort e) [
              | inl ready ↦ absurd (ground arith)
              | inr short ↦ absurd (omega arith)
            ]
      ]
