-- ===== src/Derive/Safe.antt =====
-- Which keys a derivation can return, whatever the peers answer (src/grpc.rs, `collect_and_dprf`).
use g_kms.Prelude.{
  ℕ, ◌≤◌, ◌≡◌, refl, Bool, true, Bool-cases, inl, inr, ap, sym, ◌∙◌, subst, any, ◌==◌, ==_iff, mem,
  All, length, List, [], ◌∷◌, Option, none, some, Bytes, arith, length-sort, sort-IsAscending,
  IsAscending, mem-sort, ok, some,
}
use g_kms.State.{ShardState}
use g_kms.Wire.{dprf_message}
use g_kms.Derive.{Bls, Reply, DeriveTrace, at_epoch, gather, collect_and_dprf}
use g_kms.Derive.Step.{Matched, Matched-length}
use g_kms.Derive.Collect.{IsGenuine, IsGenuineAs, IsFilled, gather-IsSound, gather-IsFilled}
use g_kms.Derive.Enough.{delivers, serves, Trivial, All-Trivial}
use g_kms.Derive.Key.{Prepared, Finished, collection, collect_and_dprf-Finished}
use g_kms.Derive.Own.{gather-HasOwn}

-- A member of a bucket's index list has what its pair has.
Matched-mem :
    {P : Type 0} (t : ℕ → Bool) (is : List ℕ) (ps : List P) (i : ℕ)
    → Matched (λ j p. t j ≡ true) is ps
    → mem i is ≡ true
    → t i ≡ true
Matched-mem t [] ps i m h = cc
Matched-mem t (j ∷ is) [] i m h = absurd m
Matched-mem t (j ∷ is) (p ∷ ps) i m h = elim (Bool-cases (j == i)) [
  | inl same ↦ subst (λ k. t k ≡ true) ((==_iff j i).0 same) m.0
  | inr other ↦ Matched-mem t is ps i m.1 (ground arith)
]

-- Each answer that parses is delivered by its index, as far as the whole list goes.
abbrev Delivered : {P : Type 0} → (Bytes → Option P) → List Reply → ℕ → ℕ → P → Type 0
Delivered parse rs e id p = any (delivers parse e id) rs ≡ true

weaken_one :
    {P : Type 0} (parse : Bytes → Option P) (r : Reply) (rs : List Reply) (epoch idx : ℕ)
    (o : Option P)
    → IsGenuineAs (Delivered parse rs) epoch idx o
    → IsGenuineAs (Delivered parse (r ∷ rs)) epoch idx o
weaken_one parse r rs epoch idx none g = tt
weaken_one parse r rs epoch idx (some p) g = ground arith

weaken-All :
    {P : Type 0} (parse : Bytes → Option P) (r : Reply) (rs qs : List Reply)
    → All (IsGenuine (Delivered parse rs) parse) qs
    → All (IsGenuine (Delivered parse (r ∷ rs)) parse) qs
weaken-All parse r rs [] g = tt
weaken-All parse r rs (Reply.failed ∷ qs) g = (tt, weaken-All parse r rs qs g.1)
weaken-All parse r rs (Reply.answered idx bytes epoch ∷ qs) g =
    (weaken_one parse r rs epoch idx (parse bytes) g.0, weaken-All parse r rs qs g.1)

head-Delivered :
    {P : Type 0} (parse : Bytes → Option P) (rs : List Reply) (idx epoch : ℕ) (bytes : Bytes)
    (o : Option P)
    → parse bytes ≡ o
    → IsGenuineAs (Delivered parse (Reply.answered idx bytes epoch ∷ rs)) epoch idx o
head-Delivered parse rs idx epoch bytes none q = tt
head-Delivered parse rs idx epoch bytes (some p) q = ground arith

All-Delivered :
    {P : Type 0} (parse : Bytes → Option P) (rs : List Reply)
    → All (IsGenuine (Delivered parse rs) parse) rs
All-Delivered parse [] = tt
All-Delivered parse (Reply.failed ∷ rs) =
    (tt, weaken-All parse Reply.failed rs rs (All-Delivered parse rs))
All-Delivered parse (Reply.answered idx bytes epoch ∷ rs) = (
  head-Delivered parse rs idx epoch bytes (parse bytes) refl,
  weaken-All parse (Reply.answered idx bytes epoch) rs rs (All-Delivered parse rs),
)

abbrev Serves : {P : Type 0} → (Bytes → Option P) → ℕ → ℕ → List Reply → ℕ → ℕ → P → Type 0
Serves parse idx epoch rs e i q = serves parse idx epoch rs e i ≡ true

one-Serves :
    {P : Type 0} (parse : Bytes → Option P) (idx epoch : ℕ) (rs : List Reply) (e i : ℕ)
    (o : Option P)
    → IsGenuineAs (Delivered parse rs) e i o
    → IsGenuineAs (Serves parse idx epoch rs) e i o
one-Serves parse idx epoch rs e i none g = tt
one-Serves parse idx epoch rs e i (some p) g = ground arith

All-serve :
    {P : Type 0} (parse : Bytes → Option P) (idx epoch : ℕ) (rs qs : List Reply)
    → All (IsGenuine (Delivered parse rs) parse) qs
    → All (IsGenuine (Serves parse idx epoch rs) parse) qs
All-serve parse idx epoch rs [] g = tt
All-serve parse idx epoch rs (Reply.failed ∷ qs) g = (tt, All-serve parse idx epoch rs qs g.1)
All-serve parse idx epoch rs (Reply.answered i bytes e ∷ qs) g =
    (one-Serves parse idx epoch rs e i (parse bytes) g.0, All-serve parse idx epoch rs qs g.1)

module _ (b : Bls) where
  open b use {Share, Partial, Sigma, sign, combine, partial_from_bytes, verify, app_key}

  -- If the node returns a key, some signature of the derivation message (of this app id and
  -- material) verifies against the node's group public key, and the key is derived from it. The
  -- trace names this node as the coordinator; its servers are listed in strictly ascending order, so
  -- without repetition, and are at least as many as the threshold. This holds whatever the peers
  -- answer, malformed or forged answers and answers from other epochs included.
  pub collect_and_dprf-verified :
      (own : ShardState) (threshold : ℕ) (group_pubkey request_sig : Option Bytes)
      (app_id material : Bytes) (replies : List Reply) (key : Bytes) (trace : DeriveTrace)
      → collect_and_dprf b (some own) threshold group_pubkey request_sig app_id material replies
        ≡ ok (key, trace)
      → ((sigma : Sigma) × (pk : Bytes) × (group_pubkey ≡ some pk)
          × (verify sigma pk (dprf_message app_id material) ≡ true)
          × (key ≡ app_key sigma))
        × (trace.coordinator ≡ own.shard_index)
        × IsAscending trace.servers
        × (threshold ≤ length trace.servers)
  collect_and_dprf-verified own threshold group_pubkey request_sig app_id material replies key trace
        h =
      let (p, f) =
        collect_and_dprf-Finished b own threshold group_pubkey request_sig app_id material replies
          key trace h in
      let c = gather partial_from_bytes threshold own.shard_index own.epoch p.partial replies in
      let sound =
        gather-IsSound partial_from_bytes threshold Trivial trace.epoch own.shard_index own.epoch
          p.partial replies tt (All-Trivial partial_from_bytes replies) in
      let full =
        gather-IsFilled partial_from_bytes threshold own.shard_index own.epoch p.partial replies in
      let full' : IsFilled threshold (some trace.epoch) c.buckets =
        subst (λ r. IsFilled threshold r c.buckets) f.is_ready full in
      let paired =
        Matched-length (Trivial trace.epoch) (at_epoch trace.epoch c.contributors)
          (at_epoch trace.epoch c.buckets) sound.matched in
      (
        (f.sigma, f.pk, f.pk_known, f.verifies, f.key_eq),
        f.coordinator_eq,
        rw f.servers_eq (sort-IsAscending (at_epoch trace.epoch c.contributors) sound.distinct),
        rw f.servers_eq
            (omega (arith, full', paired, length-sort (at_epoch trace.epoch c.contributors))),
      )

  -- Signatures and partials are of a scheme; this node signs in one, partials that combine are all of
  -- the scheme of what they combine to, and in one scheme a public key and a message have one valid
  -- signature. Then any two nodes with one group public key that return a key for one app id and
  -- material, each combined at the node's own epoch, return the same key, whatever shares and epochs
  -- they hold and whatever their peers answer, partials of another scheme included.
  pub collect_and_dprf-deterministic :
      (S : Type 0) (of_partial : Partial → S) (of_sigma : Sigma → S) (basic : S)
      → ((share : Share) (msg : Bytes) (p : Partial)
          → sign share msg ≡ some p
          → of_partial p ≡ basic)
      → ((ps : List Partial) (s : Sigma)
          → combine ps ≡ some s
          → All (λ p. of_partial p ≡ of_sigma s) ps)
      → ((s s' : Sigma) (pk msg : Bytes)
          → of_sigma s ≡ of_sigma s'
          → verify s pk msg ≡ true
          → verify s' pk msg ≡ true
          → s ≡ s')
      → (own own' : ShardState) (threshold threshold' : ℕ) (pk : Bytes) (sig sig' : Option Bytes)
        (app_id material : Bytes) (replies replies' : List Reply) (key key' : Bytes)
        (trace trace' : DeriveTrace)
      → collect_and_dprf b (some own) threshold (some pk) sig app_id material replies
        ≡ ok (key, trace)
      → collect_and_dprf b (some own') threshold' (some pk) sig' app_id material replies'
        ≡ ok (key', trace')
      → trace.epoch ≡ own.epoch
      → trace'.epoch ≡ own'.epoch
      → key ≡ key'
  collect_and_dprf-deterministic S of_partial of_sigma basic signs combines unique own own'
        threshold threshold' pk sig sig' app_id material replies replies' key key' trace trace' h h'
        at at' =
      let (p, f) =
        collect_and_dprf-Finished b own threshold (some pk) sig app_id material replies key trace
          h in
      let (p', f') =
        collect_and_dprf-Finished b own' threshold' (some pk) sig' app_id material replies' key'
          trace' h' in
      let msg = dprf_message app_id material in
      let pks : f'.pk ≡ f.pk = ground (arith, f.pk_known, f'.pk_known) in
      let schemes : of_sigma f.sigma ≡ of_sigma f'.sigma =
        scheme own threshold replies key trace sig p f at
        ∙ sym (scheme own' threshold' replies' key' trace' sig' p' f' at') in
      let same =
        unique f.sigma f'.sigma f.pk msg schemes f.verifies
          (subst (λ k. verify f'.sigma k msg ≡ true) pks f'.verifies) in
      f.key_eq ∙ (ap app_key same ∙ sym f'.key_eq)
    where
      -- What is combined at the node's own epoch is of the scheme that it signs in.
      scheme :
          (own : ShardState) (threshold : ℕ) (replies : List Reply) (key : Bytes)
          (trace : DeriveTrace) (sig : Option Bytes) (p : Prepared b own app_id material)
          (f : Finished b own
            (some pk)
            (dprf_message app_id material)
            (collection b own threshold app_id material replies p)
            key
            trace)
          → trace.epoch ≡ own.epoch
          → of_sigma f.sigma ≡ basic
      scheme own threshold replies key trace sig p f at =
          let c = collection b own threshold app_id material replies p in
          let (rest, mine) =
            gather-HasOwn partial_from_bytes threshold own.epoch p.partial own.shard_index
              replies in
          let whole : combine (p.partial ∷ rest) ≡ some f.sigma =
            ap combine (sym mine)
            ∙ ap (λ e. combine (at_epoch e c.buckets)) (sym at)
            ∙ f.combined in
          let each = combines (p.partial ∷ rest) f.sigma whole in
          sym each.0 ∙ signs p.share (dprf_message app_id material) p.partial p.signed

  -- Every server in the trace has served the epoch that was combined: a peer delivered a partial
  -- under that index and epoch that parses, or the index is this node's own and so is the epoch. In
  -- particular, where the epoch that was combined is not this node's, only peers are in the list.
  pub collect_and_dprf-servers :
      (own : ShardState) (threshold : ℕ) (group_pubkey request_sig : Option Bytes)
      (app_id material : Bytes) (replies : List Reply) (key : Bytes) (trace : DeriveTrace) (id : ℕ)
      → collect_and_dprf b (some own) threshold group_pubkey request_sig app_id material replies
        ≡ ok (key, trace)
      → mem id trace.servers ≡ true
      → serves partial_from_bytes own.shard_index own.epoch replies trace.epoch id ≡ true
  collect_and_dprf-servers own threshold group_pubkey request_sig app_id material replies key trace
        id h m =
      let (p, f) =
        collect_and_dprf-Finished b own threshold group_pubkey request_sig app_id material replies
          key trace h in
      let c = gather partial_from_bytes threshold own.shard_index own.epoch p.partial replies in
      let sound =
        gather-IsSound partial_from_bytes threshold
          (Serves partial_from_bytes own.shard_index own.epoch replies) trace.epoch own.shard_index
          own.epoch p.partial replies (ground arith)
          (All-serve partial_from_bytes own.shard_index own.epoch replies replies
            (All-Delivered partial_from_bytes replies)) in
      Matched-mem (λ i. serves partial_from_bytes own.shard_index own.epoch replies trace.epoch i)
        (at_epoch trace.epoch c.contributors) (at_epoch trace.epoch c.buckets) id sound.matched
        (sym (mem-sort id (at_epoch trace.epoch c.contributors))
          ∙ (ap (mem id) (sym f.servers_eq) ∙ m))
