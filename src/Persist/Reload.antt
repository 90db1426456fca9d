-- ===== src/Persist/Reload.antt =====
-- What a node finds after a restart of what it has stored (src/init.rs, `store_share` and
-- `try_reload_sealed`).
use g_kms.Prelude.{
  ◌≤◌, ◌≡◌, refl, ap, ◌∙◌, sym, subst, true, false, Bool-cases, Result-cases, inl, inr, is_empty,
  trim, length, if◌then◌else◌, none, some, Bytes, beq_bytes, beq_bytes_iff, ok, arith,
}
use g_kms.State.{AppState, ShardState, known_epoch}
use g_kms.Seal.{
  FileRead, Surroundings, new_record, seal_to_bytes, seal_b64, sealed_share_blob, sealed_share_path,
  read_blob_file, blob_source, try_reload_sealed, trimmed, or_else, from_file,
}
use g_kms.Seal.Restart.{IsCodec, seal_to_bytes-eq-ok, nonempty, try_reload_sealed-restores}
use g_kms.Persist.{
  Write, temporary, write_blob_file, Node, Store, baseline_path, is_unrecorded, sealed_with,
  checked_at, store_share,
}
use g_kms.Persist.Files.{write_blob_file-whole}

read_whole :
    (t : Bytes) → trim t ≡ t → is_empty t ≡ false → read_blob_file (FileRead.contents t) ≡ some t
read_whole t kept filled =
    ap trimmed (
      ap (λ u. if is_empty u then none else some t) kept
      ∙ ap (λ b. if b then none else some t) filled)
    ∙ ap (λ u. some u) kept

-- A sealed text is read from a file as it was written.
read_blob_file-seal_b64 :
    (w : Store) (own_pubkey own_privkey : Bytes) (shard : ShardState) (pk text : Bytes)
    → IsCodec w.codec own_pubkey own_privkey
    → seal_b64 w.codec own_pubkey (new_record shard.shard_index shard.epoch pk shard.shard_bytes)
      ≡ ok text
    → read_blob_file (FileRead.contents text) ≡ some text
unfolding seal_b64
read_blob_file-seal_b64 w own_pubkey own_privkey shard pk text laws h =
    let rec = new_record shard.shard_index shard.epoch pk shard.shard_bytes in
    elim (Result-cases (seal_to_bytes w.codec own_pubkey rec)) [
      | inr (e, failed) ↦ absurd (ground arith)
      | inl (buf, sealed) ↦
          let (ct, layout, parsed) =
            seal_to_bytes-eq-ok w.codec own_pubkey own_privkey laws rec buf sealed in
          let e : w.codec.encode buf ≡ text = ground arith in
          let filled : 1 ≤ length buf = rw layout (omega arith) in
          subst (λ t. read_blob_file (FileRead.contents t) ≡ some t) e
            (read_whole (w.codec.encode buf) (laws.no_blanks buf)
              (nonempty w.codec own_pubkey own_privkey laws buf filled))
    ]

-- The check of the baseline leaves the share's own file alone.
checked_at-files :
    (w : Store) (path live : Bytes) (n : Node)
    → beq_bytes path (baseline_path w path) ≡ false
    → beq_bytes path (temporary (baseline_path w path)) ≡ false
    → (checked_at w (some path) live n).files path ≡ n.files path
checked_at-files w path live n apart apart' =
    let file = baseline_path w path in
    let kept = write_blob_file-whole (w.writes file) file live n.files path apart apart' in
    elim (Bool-cases (is_unrecorded (n.files file))) [
      | inl unrecorded ↦ rw unrecorded kept.1
      | inr recorded ↦ rw recorded refl
    ]

stored_file :
    (w : Store) (own_pubkey path : Bytes) (shard : ShardState) (pk text : Bytes) (n : Node)
    → w.own_pubkey ≡ ok own_pubkey
    → seal_b64 w.codec own_pubkey (new_record shard.shard_index shard.epoch pk shard.shard_bytes)
      ≡ ok text
    → sealed_share_path w.around n.state ≡ some path
    → w.writes path ≡ Write.done
    → beq_bytes path (baseline_path w path) ≡ false
    → beq_bytes path (temporary (baseline_path w path)) ≡ false
    → (store_share w shard pk n).files path ≡ FileRead.contents text
unfolding store_share
stored_file w own_pubkey path shard pk text n own sealed at done apart apart' =
    let live = w.hex_encode pk in
    let wrote : Node = record n {
      state = record n.state { sealed_share = some text };
      files = (write_blob_file Write.done path text n.files).1;
    } in
    let first : sealed_with w w.own_pubkey shard pk n ≡ wrote =
      rw own (rw sealed (rw at (rw done refl))) in
    ap (λ m. (checked_at w (sealed_share_path w.around m.state) live m).files path) first
    ∙ ap (λ o. (checked_at w o live wrote).files path) at
    ∙ checked_at-files w path live wrote apart apart'
    ∙ rw ((beq_bytes_iff path path).1 refl) refl

stored :
    (w : Store) (shard : ShardState) (pk : Bytes) (n : Node)
    → ((store_share w shard pk n).state.shard ≡ some shard)
      × ((store_share w shard pk n).state.group_pubkey ≡ some pk)
unfolding store_share
stored w shard pk n = (refl, refl)

-- A restart after a share has been stored: a node that could seal its share and write it to the
-- durable path, which the file of the baseline and its temporary file are not, and that starts again
-- on that disk with the same keys and no other blob, holds the same share and group public key
-- again, unless the cluster is by then known to be past its epoch.
pub store_share-try_reload_sealed :
    (w : Store) (own_pubkey own_privkey path : Bytes) (shard : ShardState) (pk text : Bytes)
    (n : Node) (around : Surroundings) (meanwhile : AppState → AppState) (s : AppState)
    → IsCodec w.codec own_pubkey own_privkey
    → w.own_pubkey ≡ ok own_pubkey
    → seal_b64 w.codec own_pubkey (new_record shard.shard_index shard.epoch pk shard.shard_bytes)
      ≡ ok text
    → sealed_share_path w.around n.state ≡ some path
    → w.writes path ≡ Write.done
    → beq_bytes path (baseline_path w path) ≡ false
    → beq_bytes path (temporary (baseline_path w path)) ≡ false
    → sealed_share_blob around s ≡ none
    → sealed_share_path around s ≡ some path
    → around.files path ≡ (store_share w shard pk n).files path
    → known_epoch (meanwhile s) ≤ shard.epoch
    → let after = try_reload_sealed w.codec own_privkey around meanwhile s in
      (after.0 ≡ true)
      × (after.1.shard ≡ (store_share w shard pk n).state.shard)
      × (after.1.group_pubkey ≡ (store_share w shard pk n).state.group_pubkey)
unfolding blob_source
store_share-try_reload_sealed w own_pubkey own_privkey path shard pk text n around meanwhile s laws
      own sealed at done apart apart' no_blob at' same fresh =
    let file =
      same ∙ stored_file w own_pubkey path shard pk text n own sealed at done apart apart' in
    let source : blob_source around s ≡ some text =
      ap (λ o. or_else o (from_file around (sealed_share_path around s))) no_blob
      ∙ ap (from_file around) at'
      ∙ ap read_blob_file file
      ∙ read_blob_file-seal_b64 w own_pubkey own_privkey shard pk text laws sealed in
    let (taken, shares, master, rest) =
      try_reload_sealed-restores w.codec own_pubkey own_privkey laws shard pk text around meanwhile
        s sealed source fresh in
    (taken, shares ∙ sym (stored w shard pk n).0, master ∙ sym (stored w shard pk n).1)
