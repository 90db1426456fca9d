-- ===== src/Seal/Restart.antt =====
-- What a restarted node reads back of a sealed share (src/seal.rs, src/init.rs).
use g_kms.Prelude.{
  ℕ, ◌≤◌, ◌≡◌, refl, ◌⊎◌, inl, inr, Bool, true, false, Bool-cases, Option-cases, Result-cases, [],
  ◌∷◌, ◌++◌, Option, none, some, ok, Bytes, is_empty, trim, ltb, arith, length, subst,
}
use g_kms.State.{AppState, ShardState, known_epoch}
use g_kms.Seal.{
  magic, envelope_version, SealedShareV1, new_record, Codec, seal_to_bytes, readable, parse_payload,
  unseal_from_bytes, seal_b64, unseal_b64, adopt, try_reload_sealed, blob_source, Surroundings,
}

-- The libraries' documented behaviour for a key pair: what was written is read back, and base64 text
-- has no blanks and is empty only for no bytes.
pub record IsCodec (c : Codec) (own_pubkey own_privkey : Bytes) : Type 0 where
  pub bare : (rec : SealedShareV1) (p : Bytes) → c.to_bare rec ≡ some p → c.from_bare p ≡ some rec
  pub ecies : (p ct : Bytes) → c.encrypt own_pubkey p ≡ some ct → c.decrypt own_privkey ct ≡ some p
  pub base64 : (b : Bytes) → c.decode (c.encode b) ≡ some b
  pub no_blanks : (b : Bytes) → trim (c.encode b) ≡ c.encode b
  pub empty_text : c.decode [] ≡ some []

module _ (c : Codec) (own_pubkey own_privkey : Bytes)
    (laws : IsCodec c own_pubkey own_privkey) where
  pub seal_to_bytes-eq-ok :
      (rec : SealedShareV1) (buf : Bytes)
      → seal_to_bytes c own_pubkey rec ≡ ok buf
      → (ct : Bytes) × (buf ≡ magic ++ envelope_version ∷ ct)
        × (parse_payload c (c.decrypt own_privkey ct) ≡ ok (readable c rec))
  unfolding seal_to_bytes
  seal_to_bytes-eq-ok rec buf h = elim (Option-cases (c.to_bare rec)) [
    | inl failed ↦ ground arith
    | inr (p, bare) ↦ elim (Option-cases (c.encrypt own_pubkey p)) [
      | inl failed ↦ ground arith
      | inr (ct, sealed) ↦
          (ct, ground arith, rw (laws.ecies p ct sealed) (rw (laws.bare rec p bare) refl))
    ]
  ]

  pub nonempty : (buf : Bytes) → 1 ≤ length buf → is_empty (c.encode buf) ≡ false
  nonempty [] h = ground arith
  nonempty (x ∷ buf) h = of_text (c.encode (x ∷ buf)) refl
    where
      of_text : (t : Bytes) → t ≡ c.encode (x ∷ buf) → is_empty t ≡ false
      of_text [] e = ground (arith, laws.base64 (x ∷ buf), laws.empty_text, e)
      of_text (y ∷ t) e = refl

  -- What a node seals to its own key it reads back, whole.
  unseal_b64-seal_b64 :
      (shard_index epoch : ℕ) (master_id share text : Bytes)
      → seal_b64 c own_pubkey (new_record shard_index epoch master_id share) ≡ ok text
      → unseal_b64 c text own_privkey ≡ ok (some (new_record shard_index epoch master_id share))
  unfolding seal_b64 unseal_b64 unseal_from_bytes
  unseal_b64-seal_b64 shard_index epoch master_id share text h =
      let rec = new_record shard_index epoch master_id share in
      elim (Result-cases (seal_to_bytes c own_pubkey rec)) [
        | inr (e, failed) ↦ ground arith
        | inl (buf, sealed) ↦
            let (ct, layout, parsed) = seal_to_bytes-eq-ok rec buf sealed in
            let e : c.encode buf ≡ text = ground arith in
            let filled : 1 ≤ length buf = rw layout (omega arith) in
            subst (λ t. unseal_b64 c t own_privkey ≡ ok (some rec)) e
              (rw (laws.no_blanks buf) (
                rw (nonempty buf filled) (rw (laws.base64 buf) (rw layout (opened ct rec parsed)))))
      ]
    where
      opened :
          (ct : Bytes) (rec : SealedShareV1)
          → parse_payload c (c.decrypt own_privkey ct) ≡ ok (readable c rec)
          → unseal_from_bytes c (magic ++ envelope_version ∷ ct) own_privkey ≡ ok (readable c rec)
      opened ct rec parsed =
          let long : ltb (length (magic ++ envelope_version ∷ ct)) 5 ≡ false = ground arith in
          rw long parsed

  -- A node that restarts with the blob of its share, and then knows of no later epoch, holds the same
  -- share and group public key as before, whatever other tasks did while it waited for gossip.
  pub try_reload_sealed-restores :
      (shard : ShardState) (pk text : Bytes) (around : Surroundings)
      (meanwhile : AppState → AppState) (s : AppState)
      → seal_b64 c own_pubkey (new_record shard.shard_index shard.epoch pk shard.shard_bytes)
        ≡ ok text
      → blob_source around s ≡ some text
      → known_epoch (meanwhile s) ≤ shard.epoch
      → let after = try_reload_sealed c own_privkey around meanwhile s in
        (after.0 ≡ true)
        × (after.1.shard ≡ some shard)
        × (after.1.group_pubkey ≡ some pk)
        × (after.1.peer_table ≡ (meanwhile s).peer_table)
  unfolding try_reload_sealed
  try_reload_sealed-restores shard pk text around meanwhile s h source fresh =
      let back = unseal_b64-seal_b64 shard.shard_index shard.epoch pk shard.shard_bytes text h in
      let current : ltb shard.epoch (known_epoch (meanwhile s)) ≡ false = ground arith in
      rw source (rw back (rw current (refl, refl, refl, refl)))

-- What a reload that took `before` to `after` did.
abbrev pub IsReload : Codec → Bytes → Option Bytes → AppState → AppState → Bool × AppState → Type 0
IsReload c own_privkey blob s waited (false, after) = (after ≡ s) ⊎ (after ≡ waited)
IsReload c own_privkey blob s waited (true, after) =
    (text : Bytes) × (rec : SealedShareV1) × (blob ≡ some text)
    × (unseal_b64 c text own_privkey ≡ ok (some rec))
    × (known_epoch waited ≤ rec.epoch)
    × (after ≡ adopt text rec waited)

-- A reload stores nothing, unless it takes over what the blob holds: a record that this identity could
-- decrypt, of an epoch no lower than every epoch the node knows of when it has waited for gossip.
try_reload_sealed-IsFresh :
    (c : Codec) (own_privkey : Bytes) (around : Surroundings) (meanwhile : AppState → AppState)
    (s : AppState)
    → IsReload c own_privkey
        (blob_source around s)
        s
        (meanwhile s)
        (try_reload_sealed c own_privkey around meanwhile s)
unfolding try_reload_sealed
try_reload_sealed-IsFresh c own_privkey around meanwhile s =
    elim (Option-cases (blob_source around s)) [
      | inl without ↦ rw without (inl refl)
      | inr (text, blob) ↦ elim (Result-cases (unseal_b64 c text own_privkey)) [
        | inr (e, corrupt) ↦ rw blob (rw corrupt (inr refl))
        | inl (none, foreign) ↦ rw blob (rw foreign (inr refl))
        | inl (some rec, ours) ↦ elim (Bool-cases (ltb rec.epoch (known_epoch (meanwhile s)))) [
          | inl stale ↦ rw blob (rw ours (rw stale (inr refl)))
          | inr current ↦ rw blob (rw ours (rw current (text, rec, refl, ours, ground arith, refl)))
        ]
      ]
    ]
