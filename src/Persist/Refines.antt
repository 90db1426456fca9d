-- ===== src/Persist/Refines.antt =====
-- What storing a share is to the sessions, and how it is counted (src/init.rs, `store_share`).
use g_kms.Prelude.{
  ◌≡◌, refl, ap, ◌∙◌, Bool, true, false, if◌then◌else◌, Option, none, some, Bytes, Result, ok, err,
}
use g_kms.State.{AppState, ShardState}
use g_kms.Seal.{SealError, new_record, seal_b64, sealed_share_path}
use g_kms.Reshare
use g_kms.Reshare.{or_before}
use g_kms.Metrics.Counters.{inc}
use g_kms.Crypto.{CryptoError}
use g_kms.Persist.{
  Write, write_blob_file, Node, Store, sealed_with, emitted, written_to, checked_at, store_share,
}

-- How a node seals a share and the group public key, if it can.
abbrev pub sealed_result : Result SealError Bytes → Option Bytes
sealed_result (err e) = none
sealed_result (ok text) = some text

abbrev pub sealed_by : Store → Result CryptoError Bytes → ShardState → Bytes → Option Bytes
sealed_by w (err e) shard pk = none
sealed_by w (ok own) shard pk =
    sealed_result
      (seal_b64 w.codec own (new_record shard.shard_index shard.epoch pk shard.shard_bytes))

abbrev pub sealed_text : Store → ShardState → Bytes → Option Bytes
sealed_text w = sealed_by w w.own_pubkey

abbrev pub is_done : Write → Bool
is_done (Write.not_written left) = false
is_done Write.not_renamed = false
is_done Write.done = true

-- The share is sealed, and on the durable path if there is one.
abbrev pub is_persisted : Store → Option Bytes → Option Bytes → Bool
is_persisted w path none = false
is_persisted w none (some text) = true
is_persisted w (some path) (some text) = is_done (w.writes path)

module _ (w : Store) where
  -- What sealing leaves of the state, and of the counter.
  abbrev IsSealed : Option Bytes → Node → Node → Type 0
  IsSealed text n m =
      (m.state ≡ record n.state { sealed_share = or_before n.state.sealed_share text })
      × (m.metrics.sealed_persist_fail ≡ (
          if is_persisted w (sealed_share_path w.around n.state) text
          then n.metrics.sealed_persist_fail
          else inc n.metrics.sealed_persist_fail))

  written_to-counted :
      (path text : Bytes) (n : Node) (x : Write)
      → w.writes path ≡ x
      → ((written_to w (some path) text n).state ≡ n.state)
        × ((written_to w (some path) text n).metrics.sealed_persist_fail ≡ (
            if is_done x then n.metrics.sealed_persist_fail else inc n.metrics.sealed_persist_fail))
  unfolding write_blob_file
  written_to-counted path text n (Write.not_written left) h = (rw h refl, rw h refl)
  written_to-counted path text n Write.not_renamed h = (rw h refl, rw h refl)
  written_to-counted path text n Write.done h = (rw h refl, rw h refl)

  written_to-persisted :
      (path : Option Bytes) (text : Bytes) (n : Node)
      → ((written_to w path text n).state ≡ n.state)
        × ((written_to w path text n).metrics.sealed_persist_fail ≡ (
            if is_persisted w path (some text)
            then n.metrics.sealed_persist_fail
            else inc n.metrics.sealed_persist_fail))
  written_to-persisted none text n = (refl, refl)
  written_to-persisted (some path) text n = written_to-counted path text n (w.writes path) refl

  emitted-IsSealed :
      (r : Result SealError Bytes) (n : Node) → IsSealed (sealed_result r) n (emitted w r n)
  emitted-IsSealed (err e) n = (refl, refl)
  emitted-IsSealed (ok text) n =
      written_to-persisted (sealed_share_path w.around n.state) text
        (record n { state = record n.state { sealed_share = some text } })

  sealed_with-IsSealed :
      (own : Result CryptoError Bytes) (shard : ShardState) (pk : Bytes) (n : Node)
      → IsSealed (sealed_by w own shard pk) n (sealed_with w own shard pk n)
  sealed_with-IsSealed (err e) shard pk n = (refl, refl)
  sealed_with-IsSealed (ok own) shard pk n = emitted-IsSealed _ n

  checked_at-kept :
      (path : Option Bytes) (live : Bytes) (n : Node)
      → ((checked_at w path live n).state ≡ n.state)
        × ((checked_at w path live n).metrics.sealed_persist_fail ≡ n.metrics.sealed_persist_fail)
  checked_at-kept none live n = (refl, refl)
  checked_at-kept (some path) live n = (refl, refl)

-- The end of a session as the sessions know it is what storing a share does to the node's state, whatever
-- becomes of its disk; and a share that is not persisted, for any reason, is counted once.
pub store_share-refines :
    (w : Store) (shard : ShardState) (pk : Bytes) (n : Node)
    → ((store_share w shard pk n).state ≡ Reshare.store_share (sealed_text w) shard pk n.state)
      × ((store_share w shard pk n).metrics.sealed_persist_fail ≡ (
          if is_persisted w (sealed_share_path w.around n.state) (sealed_text w shard pk)
          then n.metrics.sealed_persist_fail
          else inc n.metrics.sealed_persist_fail))
unfolding store_share
store_share-refines w shard pk n =
    let first = sealed_with w w.own_pubkey shard pk n in
    let (state, counted) = sealed_with-IsSealed w w.own_pubkey shard pk n in
    let (kept, same) =
      checked_at-kept w (sealed_share_path w.around first.state) (w.hex_encode pk) first in
    (
      ap (λ (t : AppState). record t { group_pubkey = some pk; shard = some shard }) (kept ∙ state),
      same ∙ counted,
    )
