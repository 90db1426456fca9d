-- ===== src/Derive/Own.antt =====
-- This node's own partial stays in the bucket of its epoch (src/grpc.rs, `collect_and_dprf`).
use g_kms.Prelude.{
  ℕ, ◌≡◌, refl, ap, ◌∙◌, Bool-cases, Option-cases, inl, inr, ◌==◌, ==_iff, mem, is_some, List, [],
  ◌∷◌, ◌++◌, Option, Bytes, lookup,
}
use g_kms.Derive.{
  Reply, Collected, at_epoch, add_partial, discard, take_reply, collect, nothing_yet, gather,
}
use g_kms.Derive.Step.{at_epoch-insert}

module _ {P : Type 0} (parse : Bytes → Option P) (threshold e : ℕ) (own : P) where
  abbrev pub HasOwn : Collected P → Type 0
  HasOwn c = (rest : List P) × (at_epoch e c.buckets ≡ own ∷ rest)

  add_partial-HasOwn :
      (idx epoch : ℕ) (p : P) (c : Collected P)
      → HasOwn c
      → HasOwn (add_partial threshold idx epoch p c)
  unfolding add_partial
  add_partial-HasOwn idx epoch p c (rest, h) =
      let grown = at_epoch epoch c.buckets ++ p ∷ [] in
      elim (Bool-cases (epoch == e)) [
        | inl same ↦
            let one : epoch ≡ e = (==_iff epoch e).0 same in
            (
              rest ++ p ∷ [],
              rw (at_epoch-insert epoch e grown c.buckets) (
                  rw same (ap (λ k. at_epoch k c.buckets ++ p ∷ []) one ∙ ap (λ b. b ++ p ∷ []) h)),
            )
        | inr other ↦ (rest, rw (at_epoch-insert epoch e grown c.buckets) (rw other h))
      ]

  take_reply-HasOwn :
      (r : Reply) (c : Collected P) → HasOwn c → HasOwn (take_reply parse threshold r c)
  unfolding take_reply discard
  take_reply-HasOwn Reply.failed c h = h
  take_reply-HasOwn (Reply.answered idx bytes epoch) c h =
      elim (Bool-cases (mem idx (at_epoch epoch c.seen))) [
        | inl old ↦ rw old h
        | inr new ↦ elim (Option-cases (parse bytes)) [
          | inl bad ↦ rw new (rw bad h)
          | inr (p, good) ↦ rw new (rw good (add_partial-HasOwn idx epoch p c h))
        ]
      ]

  collect-HasOwn :
      (rs : List Reply) (c : Collected P) → HasOwn c → HasOwn (collect parse threshold rs c)
  unfolding collect
  collect-HasOwn [] c h = h
  collect-HasOwn (r ∷ rs) c h = elim (Bool-cases (is_some c.ready)) [
    | inl done ↦ rw done h
    | inr more ↦
        rw more (collect-HasOwn rs (take_reply parse threshold r c) (take_reply-HasOwn r c h))
  ]

  pub gather-HasOwn : (idx : ℕ) (rs : List Reply) → HasOwn (gather parse threshold idx e own rs)
  unfolding gather add_partial lookup
  gather-HasOwn idx rs =
      collect-HasOwn rs (add_partial threshold idx e own nothing_yet)
        ([], rw (at_epoch-insert e e (own ∷ []) []) (rw ((==_iff e e).1 refl) refl))
