-- ===== src/Derive/Collect.antt =====
-- What the collection holds when it ends (src/grpc.rs, `collect_and_dprf`).
use g_kms.Prelude.{
  ℕ, ◌≤◌, ◌≡◌, refl, false, Bool-cases, inl, inr, is_some, mem, All, length, leb, List, [], ◌∷◌,
  ◌++◌, Option, none, some, Option-cases, Map, lookup, nat_eq, Bytes, arith, lookup-insert_self,
}
use g_kms.Derive.{Reply, Collected, at_epoch, add_partial, take_reply, collect, nothing_yet, gather}
use g_kms.Derive.Step.{IsSound, add_partial-IsSound, discard-IsSound}

-- The answer, if it parses, is a genuine partial of its index and epoch.
abbrev pub IsGenuineAs : {P : Type 0} → (ℕ → ℕ → P → Type 0) → ℕ → ℕ → Option P → Type 0
IsGenuineAs G epoch idx none = Unit
IsGenuineAs G epoch idx (some p) = G epoch idx p

abbrev pub IsGenuine : {P : Type 0} → (ℕ → ℕ → P → Type 0) → (Bytes → Option P) → Reply → Type 0
IsGenuine G parse Reply.failed = Unit
IsGenuine G parse (Reply.answered idx bytes epoch) = IsGenuineAs G epoch idx (parse bytes)

pub is_some-false : {A : Type 0} (o : Option A) → is_some o ≡ false → o ≡ none
is_some-false none h = refl
is_some-false (some a) h = cc

-- If an epoch is ready, its bucket has reached the threshold.
abbrev pub IsFilled : {P : Type 0} → ℕ → Option ℕ → Map ℕ (List P) → Type 0
IsFilled threshold none buckets = Unit
IsFilled threshold (some e) buckets = threshold ≤ length (at_epoch e buckets)

module _ {P : Type 0} (parse : Bytes → Option P) (threshold : ℕ) where
  add_partial-IsFilled :
      (idx epoch : ℕ) (p : P) (c : Collected P)
      → c.ready ≡ none
      → let d = add_partial threshold idx epoch p c in IsFilled threshold d.ready d.buckets
  unfolding add_partial
  add_partial-IsFilled idx epoch p c h =
      let bucket = at_epoch epoch c.buckets ++ p ∷ [] in
      elim (Bool-cases (leb threshold (length bucket))) [
        | inl full ↦ rw full (rw lookup-insert_self (ground arith))
        | inr short ↦ rw short (rw h tt)
      ]

  take_reply-IsFilled :
      (r : Reply) (c : Collected P)
      → c.ready ≡ none
      → let d = take_reply parse threshold r c in IsFilled threshold d.ready d.buckets
  unfolding take_reply
  take_reply-IsFilled Reply.failed c h = rw h tt
  take_reply-IsFilled (Reply.answered idx bytes epoch) c h =
      elim (Bool-cases (mem idx (at_epoch epoch c.seen))) [
        | inl old ↦ rw old (rw h tt)
        | inr new ↦ elim (Option-cases (parse bytes)) [
          | inl bad ↦ rw new (rw bad (rw h tt))
          | inr (p, good) ↦ rw new (rw good (add_partial-IsFilled idx epoch p c h))
        ]
      ]

  collect-IsFilled :
      (rs : List Reply) (c : Collected P)
      → IsFilled threshold c.ready c.buckets
      → let d = collect parse threshold rs c in IsFilled threshold d.ready d.buckets
  unfolding collect
  collect-IsFilled [] c f = f
  collect-IsFilled (r ∷ rs) c f = elim (Bool-cases (is_some c.ready)) [
    | inl done ↦ rw done f
    | inr more ↦ rw more (
        collect-IsFilled rs (take_reply parse threshold r c)
          (take_reply-IsFilled r c (is_some-false c.ready more)))
  ]

  pub gather-IsFilled :
      (idx epoch : ℕ) (own : P) (rs : List Reply)
      → let d = gather parse threshold idx epoch own rs in IsFilled threshold d.ready d.buckets
  unfolding gather
  gather-IsFilled idx epoch own rs =
      collect-IsFilled rs (add_partial threshold idx epoch own nothing_yet)
        (add_partial-IsFilled idx epoch own nothing_yet refl)

  module _ (G : ℕ → ℕ → P → Type 0) (e : ℕ) where
    take_reply-IsSound :
        (r : Reply) (c : Collected P)
        → IsGenuine G parse r
        → IsSound (G e) e c
        → IsSound (G e) e (take_reply parse threshold r c)
    unfolding take_reply
    take_reply-IsSound Reply.failed c g v = record {
      matched = v.matched;
      distinct = v.distinct;
      known = v.known;
    }
    take_reply-IsSound (Reply.answered idx bytes epoch) c g v =
        elim (Bool-cases (mem idx (at_epoch epoch c.seen))) [
          | inl old ↦ rw old v
          | inr new ↦ elim (Option-cases (parse bytes)) [
            | inl bad ↦ rw new (rw bad (discard-IsSound G e idx epoch c v))
            | inr (p, good) ↦
                rw new
                  (rw good (add_partial-IsSound G e threshold idx epoch p c new (rw good at g) v))
          ]
        ]

    collect-IsSound :
        (rs : List Reply) (c : Collected P)
        → All (IsGenuine G parse) rs
        → IsSound (G e) e c
        → IsSound (G e) e (collect parse threshold rs c)
    unfolding collect
    collect-IsSound [] c g v = v
    collect-IsSound (r ∷ rs) c g v = elim (Bool-cases (is_some c.ready)) [
      | inl done ↦ rw done v
      | inr more ↦
          rw more
            (collect-IsSound rs (take_reply parse threshold r c) g.1 (take_reply-IsSound r c g.0 v))
    ]

    pub gather-IsSound :
        (idx epoch : ℕ) (own : P) (rs : List Reply)
        → G epoch idx own
        → All (IsGenuine G parse) rs
        → IsSound (G e) e (gather parse threshold idx epoch own rs)
    unfolding gather lookup
    gather-IsSound idx epoch own rs g gs =
        collect-IsSound rs (add_partial threshold idx epoch own nothing_yet) gs (
          add_partial-IsSound G e threshold idx epoch own nothing_yet refl g
            (record { matched = tt; distinct = tt; known = tt }))
