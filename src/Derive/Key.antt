-- ===== src/Derive/Key.antt =====
-- What a derivation returns (src/grpc.rs, `collect_and_dprf`).
use g_kms.Prelude.{
  ℕ, ◌≡◌, refl, true, Bool-cases, inl, inr, subst, List, Option, some, Option-cases, Bytes, arith,
  sort, ok,
}
use g_kms.State.{ShardState}
use g_kms.Wire.{dprf_message}
use g_kms.Derive.{Bls, Reply, Collected, DeriveTrace, at_epoch, gather, finish, collect_and_dprf}

module _ (b : Bls) where
  open b use {
    Share, Partial, Sigma, share_from_bytes, sign, partial_from_bytes, combine, verify, app_key,
  }

  -- A finished derivation: the epoch that is ready, its combined signature, which the group public
  -- key verifies, and the key and the trace that come of them.
  pub record Finished (own : ShardState) (group_pubkey : Option Bytes) (msg : Bytes)
      (c : Collected Partial) (key : Bytes) (trace : DeriveTrace) : Type 0 where
    pub sigma : Sigma
    pub pk : Bytes
    pub is_ready : c.ready ≡ some trace.epoch
    pub combined : combine (at_epoch trace.epoch c.buckets) ≡ some sigma
    pub pk_known : group_pubkey ≡ some pk
    pub verifies : verify sigma pk msg ≡ true
    pub key_eq : key ≡ app_key sigma
    pub servers_eq : trace.servers ≡ sort (at_epoch trace.epoch c.contributors)
    pub coordinator_eq : trace.coordinator ≡ own.shard_index

  finish-Finished :
      (own : ShardState) (group_pubkey : Option Bytes) (msg : Bytes) (c : Collected Partial)
      (key : Bytes) (trace : DeriveTrace)
      → finish b own group_pubkey msg c ≡ ok (key, trace)
      → Finished own group_pubkey msg c key trace
  unfolding finish
  finish-Finished own group_pubkey msg c key trace h = elim (Option-cases c.ready) [
    | inl q ↦ absurd (ground arith)
    | inr (e, q) ↦ elim (Option-cases (combine (at_epoch e c.buckets))) [
      | inl q' ↦ absurd (ground arith)
      | inr (s, q') ↦ elim (Option-cases group_pubkey) [
        | inl q'' ↦ absurd (ground arith)
        | inr (pk, q'') ↦ elim (Bool-cases (verify s pk msg)) [
          | inr v ↦ absurd (ground arith)
          | inl v ↦
              let made : DeriveTrace = record {
                coordinator = own.shard_index;
                epoch = e;
                servers = sort (at_epoch e c.contributors);
              } in
              let keys : key ≡ app_key s = ground arith in
              let traces : made ≡ trace = ground arith in
              subst (Finished own group_pubkey msg c key) traces (record {
                sigma = s;
                pk = pk;
                is_ready = q;
                combined = q';
                pk_known = q'';
                verifies = v;
                key_eq = keys;
                servers_eq = refl;
                coordinator_eq = refl;
              })
        ]
      ]
    ]
  ]

  -- What `collect_and_dprf` computes before the collection.
  pub record Prepared (own : ShardState) (app_id material : Bytes) : Type 0 where
    pub share : Share
    pub partial : Partial
    pub share_parsed : share_from_bytes own.shard_bytes ≡ some share
    pub signed : sign share (dprf_message app_id material) ≡ some partial

  abbrev pub collection :
      (own : ShardState) (threshold : ℕ) (app_id material : Bytes) (replies : List Reply)
      → Prepared own app_id material
      → Collected Partial
  collection own threshold app_id material replies p =
      gather partial_from_bytes threshold own.shard_index own.epoch p.partial replies

  pub collect_and_dprf-Finished :
      (own : ShardState) (threshold : ℕ) (group_pubkey request_sig : Option Bytes)
      (app_id material : Bytes) (replies : List Reply) (key : Bytes) (trace : DeriveTrace)
      → collect_and_dprf b (some own) threshold group_pubkey request_sig app_id material replies
        ≡ ok (key, trace)
      → (p : Prepared own app_id material) × Finished own group_pubkey
          (dprf_message app_id material)
          (collection own threshold app_id material replies p)
          key
          trace
  unfolding collect_and_dprf
  collect_and_dprf-Finished own threshold group_pubkey request_sig app_id material replies key trace
        h =
      elim (Option-cases (share_from_bytes own.shard_bytes)) [
        | inl q ↦ absurd (ground arith)
        | inr (s, q) ↦ elim (Option-cases (sign s (dprf_message app_id material))) [
          | inl q' ↦ absurd (ground arith)
          | inr (mine, q') ↦ elim (Option-cases request_sig) [
            | inl q'' ↦ absurd (ground arith)
            | inr (sig, q'') ↦ (
              record { share = s; partial = mine; share_parsed = q; signed = q' },
              finish-Finished own group_pubkey (dprf_message app_id material)
                  (gather partial_from_bytes threshold own.shard_index own.epoch mine replies) key
                  trace (ground arith),
            )
          ]
        ]
      ]
