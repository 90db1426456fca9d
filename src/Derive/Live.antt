-- ===== src/Derive/Live.antt =====
-- When a derivation succeeds among dead and lagging peers (src/grpc.rs, `collect_and_dprf`).
use g_kms.Prelude.{
  ℕ, ◌≤◌, ◌≡◌, true, false, any, Distinct, All, length, List, some, Bytes, arith, sort, ok, subst,
}
use g_kms.State.{ShardState}
use g_kms.Wire.{dprf_message}
use g_kms.Derive.{Bls, Reply, DeriveTrace, at_epoch, gather, finish, collect_and_dprf}
use g_kms.Derive.Step.{Matched, Matched-length}
use g_kms.Derive.Collect.{IsGenuine, IsFilled, gather-IsSound, gather-IsFilled}
use g_kms.Derive.Enough.{serves, garbles, gather-ready}
use g_kms.Derive.Key.{Prepared}

module _ (b : Bls) where
  open b use {Partial, Sigma, partial_from_bytes, combine, verify}

  -- The combination works on genuine partials: of enough distinct indices, all of one epoch, they
  -- give this signature, which verifies.
  abbrev pub Combines : (ℕ → ℕ → Partial → Type 0) → ℕ → Bytes → Bytes → Sigma → Type 0
  Combines G threshold pk msg sigma =
      (e : ℕ) (is : List ℕ) (ps : List Partial)
      → Distinct is
      → threshold ≤ length is
      → Matched (G e) is ps
      → (combine ps ≡ some sigma) × (verify sigma pk msg ≡ true)

  -- A node that holds a share and knows the group public key derives the key, if at some epoch at
  -- least as many distinct indices as the threshold says serve (its own included), none of them with
  -- an answer that does not parse, and every answer that parses is genuine. The other peers may fail
  -- or answer from other epochs, in any order.
  pub collect_and_dprf-succeeds :
      (G : ℕ → ℕ → Partial → Type 0) (own : ShardState) (threshold : ℕ) (pk sig : Bytes)
      (app_id material : Bytes) (replies : List Reply) (e : ℕ) (ids : List ℕ)
      (p : Prepared b own app_id material) (sigma : Sigma)
      → Combines G threshold pk (dprf_message app_id material) sigma
      → G own.epoch own.shard_index p.partial
      → All (IsGenuine G partial_from_bytes) replies
      → Distinct ids
      → threshold ≤ length ids
      → All (λ id. serves partial_from_bytes own.shard_index own.epoch replies e id ≡ true) ids
      → All (λ id. any (garbles partial_from_bytes e id) replies ≡ false) ids
      → (trace : DeriveTrace) × (collect_and_dprf b
            (some own)
            threshold
            (some pk)
            (some sig)
            app_id
            material
            replies
          ≡ ok (b.app_key sigma, trace))
  unfolding collect_and_dprf finish
  collect_and_dprf-succeeds G own threshold pk sig app_id material replies e ids p sigma law mine
        genuine distinct enough serving clean =
      let idx = own.shard_index in
      let c = gather partial_from_bytes threshold idx own.epoch p.partial replies in
      let (e', ready) =
        gather-ready partial_from_bytes threshold idx own.epoch p.partial replies e ids distinct
          enough serving clean in
      let sound =
        gather-IsSound partial_from_bytes threshold G e' idx own.epoch p.partial replies mine
          genuine in
      let full' : IsFilled threshold (some e') c.buckets =
        subst (λ r. IsFilled threshold r c.buckets) ready
          (gather-IsFilled partial_from_bytes threshold idx own.epoch p.partial replies) in
      let paired =
        Matched-length (G e') (at_epoch e' c.contributors) (at_epoch e' c.buckets) sound.matched in
      let (combined, good) =
        law e' (at_epoch e' c.contributors) (at_epoch e' c.buckets) sound.distinct
          (omega (arith, full', paired)) sound.matched in
      (
        record { coordinator = idx; epoch = e'; servers = sort (at_epoch e' c.contributors) },
        rw p.share_parsed (rw p.signed (rw ready (rw combined (rw good)))),
      )
